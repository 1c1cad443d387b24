-- ===== src/Heartbeat/Expire.antt =====
-- The nodes and their timers after `heartbeat_timeout_handler`.
use libwlmio.Prelude.{
  ℕ, zero, suc, ◌+◌, ◌≤◌, ◌<◌, ◌≡◌, ◌≢◌, refl, sym, ◌∙◌, ap, Option, none, some, true, false, arith,
  Bool-cases, inl, inr,
}
use libwlmio.State.{World, FdEntry, offline, update}
use libwlmio.Fds.{same_fd, unlink, fd_entry_close, close}
use libwlmio.Fds.Find.{find_fd, same_fd_eq, same_fd_refl}
use libwlmio.Heartbeat.{StatusCall, node_of_timer, notify, heartbeat_timeout}
use libwlmio.Heartbeat.Tracking.{IsTracked, stop-IsTracked}

module _ (timers : ℕ → Option ℕ) (fd : Option ℕ) where
  search_finds :
      (rounds i node : ℕ)
      → i ≤ node
      → node < i + rounds
      → timers node ≡ fd
      → ((j : ℕ) → timers j ≡ fd → j ≡ node)
      → node_of_timer rounds i timers fd ≡ some node
  unfolding node_of_timer
  search_finds zero i node lo hi at only = absurd (omega arith)
  search_finds (suc rounds) i node lo hi at only = elim (Bool-cases (same_fd (timers i) fd)) [
    | inl hit ↦ rw hit (ap some (only i (same_fd_eq (timers i) fd hit)))
    | inr miss ↦
        let other : i ≢ node = λ p.
          let shown : true ≡ false =
            sym (same_fd_refl fd) ∙ ap (λ t. same_fd t fd) (sym at ∙ ap timers (sym p)) ∙ miss in
          cc shown in
        rw miss (search_finds rounds (i + 1) node (omega arith) (omega arith) at only)
  ]

  search_fails :
      (rounds i : ℕ)
      → ((j : ℕ) → j < i + rounds → timers j ≢ fd)
      → node_of_timer rounds i timers fd ≡ none
  unfolding node_of_timer
  search_fails zero i never = refl
  search_fails (suc rounds) i never = elim (Bool-cases (same_fd (timers i) fd)) [
    | inl hit ↦ absurd (never i (omega arith) (same_fd_eq (timers i) fd hit))
    | inr miss ↦ rw miss (search_fails rounds (i + 1) (λ j p. never j (omega arith)))
  ]

module _ {Ins : Type 0} (status_call : StatusCall Ins) (w : World Ins)
    (h : IsTracked w.nodes w.timers w.fds) (node fd : ℕ) (at : w.timers node ≡ some fd) where
  abbrev pub entry : FdEntry
  entry = (h.listed node fd at).entry

  -- The world without the timer, the node offline.
  unfoldable pub expired : World Ins
  expired = record w {
    nodes = update w.nodes node offline;
    timers = update w.timers node none;
    fds = unlink entry.addr w.fds;
    armed = close entry.fd w.armed;
  }

  entry_fd : entry.fd ≡ some fd
  entry_fd = find_fd (some fd) w.fds entry (h.listed node fd at).by_fd

  -- When the timer of a node 0 to 126 runs out, that node and no other is marked offline, the timer
  -- is closed, timers and nodes are in step again, and the function for changes of status, if there
  -- is one, is called with the old status and the offline one.
  pub heartbeat_timeout-expired :
      node ≤ 126
      → (heartbeat_timeout status_call entry.addr w
          ≡ notify status_call w.user_callback node (w.nodes node) offline expired)
        × IsTracked expired.nodes expired.timers expired.fds
  unfolding heartbeat_timeout expired fd_entry_close
  heartbeat_timeout-expired fits =
      let found : node_of_timer 127 0 w.timers entry.fd ≡ some node = rw entry_fd (
        search_finds w.timers (some fd) 127 0 node (omega arith) (omega arith) at
          (λ j e. h.apart j node fd e at)) in
      (
        rw ((h.listed node fd at).by_address, found),
        stop-IsTracked w.nodes w.timers w.fds h node offline refl fd at,
      )

  -- The search ends before node 127: when the timer of that node runs out, the handler goes on with
  -- a node and a pointer that were never set.
  pub heartbeat_timeout_127 : node ≡ 127 → heartbeat_timeout status_call entry.addr w ≡ none
  unfolding heartbeat_timeout
  heartbeat_timeout_127 p =
      let lost : node_of_timer 127 0 w.timers entry.fd ≡ none = rw entry_fd (
        search_fails w.timers (some fd) 127 0
          (λ j lt e. absurd (omega (arith, h.apart j node fd e at)))) in
      rw ((h.listed node fd at).by_address, lost)
