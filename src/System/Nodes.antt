-- ===== src/System/Nodes.antt =====
-- The invariant through a heartbeat, and through the timer of a node.
use libwlmio.Prelude.{
  ℕ, ◌≤◌, ◌≡◌, ◌≢◌, sym, ◌∙◌, ap, subst, List, Option, some, arith, length, ne→==, eq_of_some,
}
use native.Mathlib.Decide.{ℕ_discrete}
use libwlmio.Wire.{Dsdl}
use libwlmio.State.{World, Transfer, FdEntry, Callback, Status, update, offline}
use libwlmio.Fds.{fd_entry_find}
use libwlmio.Heartbeat.{StatusCall, TimerAnswers, heartbeat_handler, heartbeat_timeout, read_status}
use libwlmio.Heartbeat.Tracking.{IsTracked}
use libwlmio.Heartbeat.Receive.{heartbeat_handler-Change}
use libwlmio.Heartbeat.Taken.{TimerReady, TimerChange, kept, stopped, started}
use libwlmio.Heartbeat.Expire.{expired, heartbeat_timeout-expired}
use libwlmio.System.{IsLive, IsSound}
use libwlmio.System.Lists.{IsSound-keep, IsSound-stop, IsSound-start}
use libwlmio.System.Tasks.{Notices, Settles, notify-Settles}

module _ {Ins : Type 0} (IsSafe : Callback → Type 0) (status_call : StatusCall Ins)
    (notices : Notices IsSafe status_call) (w : World Ins) (h : IsLive IsSafe w) where
  changed :
      (node : ℕ) (timers' : ℕ → Option ℕ) (fds' : List FdEntry) (nodes' : ℕ → Status)
      → node ≤ 126
      → TimerChange w.timers w.fds node timers' fds'
      → IsTracked nodes' timers' fds'
      → IsSound IsSafe w.epollfd nodes' timers' fds' w.tasks
  changed node timers' fds' nodes' fits (kept p q) tracked =
      rw (p, q)
        (IsSound-keep IsSafe w.epollfd w.nodes w.timers w.fds w.tasks h nodes'
          (rw (p, q) at tracked))
  changed node timers' fds' nodes' fits (stopped fd e is found at handles p q) tracked =
      rw (p, q)
        (IsSound-stop IsSafe w.epollfd w.nodes w.timers w.fds w.tasks h nodes' node fd e is found at
          handles (rw (p, q) at tracked))
  changed node timers' fds' nodes' fits (started fd e free fd_is handles fd_new a_new p q) tracked =
      rw (p, q)
        (IsSound-start IsSafe w.epollfd w.nodes w.timers w.fds w.tasks h nodes' node fd e fits free
          fd_is handles fd_new (rw (p, q) at tracked))

  module _ (d : Dsdl) (os : TimerAnswers) (tfr : Transfer) where
    received_status :
        length tfr.payload ≢ 0
        → tfr.remote_node_id ≤ 126
        → TimerReady os w.fds
        → Settles IsSafe (heartbeat_handler status_call d os tfr w)
    received_status some_payload fits ready =
        let (w', handled, received, change, epoll) =
          heartbeat_handler-Change status_call d os tfr w some_payload (omega arith) h.tracked
            ready in
        let live : IsLive IsSafe w' =
          rw (epoll, received.tasks_after)
            (changed tfr.remote_node_id w'.timers w'.fds w'.nodes fits change received.tracked) in
        let (last, told, after) =
          notify-Settles IsSafe status_call notices w.user_callback tfr.remote_node_id
            (w.nodes tfr.remote_node_id) (read_status d tfr.payload) w' live in
        (last, handled ∙ told, after)

    pub heartbeat_handler-Settles :
        (length tfr.payload ≢ 0 → tfr.remote_node_id ≢ 255 → tfr.remote_node_id ≤ 126)
        → TimerReady os w.fds
        → Settles IsSafe (heartbeat_handler status_call d os tfr w)
    heartbeat_handler-Settles fits ready = elim (ℕ_discrete (length tfr.payload) 0) [
      | yes empty ↦ (w, unfold heartbeat_handler in rw empty, h)
      | no filled ↦ elim (ℕ_discrete tfr.remote_node_id 255) [
        | yes unset ↦
            (w, unfold heartbeat_handler in rw (unset, ne→== (length tfr.payload) 0 filled), h)
        | no set ↦ received_status filled (fits filled set) ready
      ]
    ]

  pub heartbeat_timeout-Settles :
      (a node fd : ℕ) (e : FdEntry)
      → e.addr ≡ a
      → w.timers node ≡ some fd
      → fd_entry_find (some fd) w.fds ≡ some e
      → Settles IsSafe (heartbeat_timeout status_call a w)
  unfolding expired
  heartbeat_timeout-Settles a node fd e addr is found =
      let its = h.tracked.listed node fd is in
      let same : its.entry.addr ≡ a =
        ap (λ (x : FdEntry). x.addr) (eq_of_some (sym its.by_fd ∙ found)) ∙ addr in
      let (handled, tracked) =
        heartbeat_timeout-expired status_call w h.tracked node fd is (h.below node fd is) in
      let live : IsLive IsSafe (expired status_call w h.tracked node fd is) =
        IsSound-stop IsSafe w.epollfd w.nodes w.timers w.fds w.tasks h (update w.nodes node offline)
          node fd its.entry is its.by_fd its.by_address its.times_out tracked in
      let (last, told, after) =
        notify-Settles IsSafe status_call notices w.user_callback node (w.nodes node) offline
          (expired status_call w h.tracked node fd is) live in
      (
        last,
        subst (λ k. heartbeat_timeout status_call k w ≡ some last) same (handled ∙ told),
        after,
      )
