-- ===== src/Init/Starts.antt =====
-- What `wlmio_init` leaves behind.
use libwlmio.Prelude.{
  eq_of_some, ℕ, zero, suc, ◌+◌, ◌≤◌, ◌<◌, ◌≡◌, ◌≢◌, refl, sym, ◌∙◌, ap, subst, List, [], ◌∷◌,
  Option, none, some, true, pos, Bool-cases, inl, inr, ◌==◌, ==_refl, arith, ◌&&◌,
}
use native.Mathlib.Decide.{ℕ_discrete, dec_lt}
use libwlmio.State.{
  World, Task, FdEntry, Status, Callback, TransferKind, message, response, can_socket_handler,
  offline, update,
}
use libwlmio.Fds.{entry_at, fd_entry_add}
use libwlmio.Heartbeat.Tracking.{update_other}
use libwlmio.Init.{
  node_count, CanardSetup, InitAnswers, get_node_id, subscribed, mtu_can_fd, can_socket_init,
  reset_nodes, start_node, open_epoll, name_node, wlmio_init,
}
use libwlmio.System.{IsSound, IsLive, socket}

-- Each call of the system succeeds.
pub record Opens (os : InitAnswers) : Type 0 where
  pub node : ℕ
  pub epoll : ℕ
  pub can : ℕ
  pub entry : ℕ
  pub node_given : get_node_id os ≡ pos node
  pub epoll_given : os.epoll ≡ some epoll
  pub can_given : os.socket ≡ some can
  pub set_up : (os.ioctl && os.bind && os.setsockopt) ≡ true
  pub entry_given : os.entry_memory ≡ some entry

-- What the library listens to, in its order: the kind, the port and the bytes of the longest payload
-- of the replies to uavcan.register.List, register.Access, node.ExecuteCommand and node.GetInfo,
-- and of uavcan.node.Heartbeat.
abbrev pub subscriptions : List (TransferKind × ℕ × ℕ)
subscriptions =
    (response, 385, 51)
    ∷ (response, 384, 267)
    ∷ (response, 435, 1)
    ∷ (response, 430, 313)
    ∷ (message, 7509, 7)
    ∷ []

abbrev pub subscribe : {Ins : Type 0} → CanardSetup Ins → List (TransferKind × ℕ × ℕ) → Ins → Ins
subscribe setup [] canard = canard
subscribe setup ((kind, port, extent) ∷ rest) canard =
    subscribe setup rest (setup.rx_subscribe kind port extent canard)

-- No tasks, no nodes, and the socket.
pub socket-IsSound :
    (IsSafe : Callback → Type 0) (epollfd : Option ℕ) (nodes : ℕ → Status) (timers : ℕ → Option ℕ)
    (e : FdEntry) (tasks : List Task)
    → (fd : ℕ) × (epollfd ≡ some fd)
    → ((n : ℕ) → (nodes n ≡ offline) × (timers n ≡ none))
    → e.handler ≡ can_socket_handler
    → tasks ≡ []
    → IsSound IsSafe epollfd nodes timers (e ∷ []) tasks
unfolding entry_at
socket-IsSound IsSafe epollfd nodes timers e tasks opened idle handles no_tasks =
    subst (IsSound IsSafe epollfd nodes timers (e ∷ [])) (sym no_tasks) (record {
      opened = opened;
      addresses = tt;
      timers_apart = tt;
      watched = tt;
      tracked = record {
        online = λ n on. absurd (on (ap (λ (s : Status). s.mode) (idle n).0));
        absent = λ n off. (idle n).1;
        listed = λ n fd p. absurd (none_set n fd p);
        apart = λ n m fd p q. absurd (none_set n fd p);
      };
      below = λ n fd p. absurd (none_set n fd p);
      owned = λ a c at. socket (handled a c at);
      params = tt;
      safe = tt;
    })
  where
    none_set : (n fd : ℕ) → timers n ≢ some fd
    none_set n fd p = let shown : none ≡ some fd = sym (idle n).1 ∙ p in cc shown

    handled : (a : ℕ) (c : FdEntry) → entry_at a (e ∷ []) ≡ some c → c.handler ≡ can_socket_handler
    handled a c at = elim (Bool-cases (e.addr == a)) [
      | inl hit ↦
          let same : e ≡ c = eq_of_some (rw hit at at) in
          ap (λ (x : FdEntry). x.handler) (sym same) ∙ handles
      | inr miss ↦ let shown : none ≡ some c = rw miss at at in absurd (cc shown)
    ]

module _ {Ins : Type 0} where
  -- The loop changes the two tables only.
  reset-keeps :
      (rounds i : ℕ) (w : World Ins)
      → reset_nodes rounds i w ≡ record w {
        nodes = (reset_nodes rounds i w).nodes;
        timers = (reset_nodes rounds i w).timers;
      }
  unfolding reset_nodes
  reset-keeps zero i w = refl
  reset-keeps (suc rounds) i w =
      let next : World Ins = record w {
        nodes = update w.nodes i offline;
        timers = update w.timers i none;
      } in
      reset-keeps rounds (i + 1) next

  -- Nothing but an offline node without a timer.
  abbrev Idle : World Ins → ℕ → Type 0
  Idle w n = (w.nodes n ≡ offline) × (w.timers n ≡ none)

  reset-Idle :
      (rounds i : ℕ) (w : World Ins)
      → ((n : ℕ) → n < i → Idle w n)
      → ((n : ℕ) → i + rounds ≤ n → Idle w n)
      → (n : ℕ) → Idle (reset_nodes rounds i w) n
  unfolding reset_nodes
  reset-Idle zero i w lo hi n = elim (dec_lt n i) [ yes p ↦ lo n p | no p ↦ hi n (omega arith) ]
  reset-Idle (suc rounds) i w lo hi n =
      reset-Idle rounds (i + 1)
        (record w { nodes = update w.nodes i offline; timers = update w.timers i none })
        (λ m p. elim (ℕ_discrete m i) [
          | yes q ↦ (rw (q, ==_refl i), rw (q, ==_refl i))
          | no q ↦ (
            update_other w.nodes i m offline q ∙ (lo m (omega (arith, q))).0,
            update_other w.timers i m none q ∙ (lo m (omega (arith, q))).1,
          )
        ])
        (λ m p. (
          update_other w.nodes i m offline (λ q. omega arith) ∙ (hi m (omega arith)).0,
          update_other w.timers i m none (λ q. omega arith) ∙ (hi m (omega arith)).1,
        ))
        n

  -- The variables as the program finds them. The tables have 128 entries.
  pub record AtStart (w : World Ins) : Type 0 where
    pub no_fds : w.fds ≡ []
    pub no_tasks : w.tasks ≡ []
    pub past_tables : (n : ℕ) → 128 ≤ n → (w.nodes n ≡ offline) × (w.timers n ≡ none)

  module _ (IsSafe : Callback → Type 0) (setup : CanardSetup Ins) (os : InitAnswers) (w : World Ins)
      (start : AtStart w) (opens : Opens os) where
    abbrev pub can_entry : FdEntry
    can_entry = record { addr = opens.entry; fd = some opens.can; handler = can_socket_handler }

    -- The world before the loop over the nodes.
    abbrev prepared : World Ins
    prepared = record w {
      canard =
          subscribed setup
            (setup.set_node_id opens.node (setup.set_mtu_bytes mtu_can_fd setup.init));
      epollfd = some opens.epoll;
      can_sock = some opens.can;
      fds = can_entry ∷ [];
    }

    init_result : wlmio_init setup os w ≡ some (pos 0, reset_nodes node_count 0 prepared)
    unfolding wlmio_init name_node open_epoll start_node can_socket_init fd_entry_add
    init_result = rw (
      opens.node_given, opens.epoll_given, opens.can_given, opens.set_up, opens.entry_given,
      start.no_fds,
    )

    idle : (n : ℕ) → Idle (reset_nodes node_count 0 prepared) n
    unfolding node_count
    idle =
        reset-Idle 128 0 prepared (λ n p. absurd (omega arith))
          (λ n p. start.past_tables n (omega arith))

    live : IsLive IsSafe (reset_nodes node_count 0 prepared)
    live = subst (IsLive IsSafe) (sym (reset-keeps node_count 0 prepared)) (
        socket-IsSound IsSafe (some opens.epoll) (reset_nodes node_count 0 prepared).nodes
          (reset_nodes node_count 0 prepared).timers can_entry w.tasks (opens.epoll, refl) idle refl
          start.no_tasks)

    -- Called at the start of the program with every call of the system succeeding, wlmio_init
    -- returns 0; all nodes are offline without a timer, the invariant of tasks, timers, nodes and
    -- entries holds, the socket is the one entry of the list of file descriptors, and libcanard has
    -- the MTU, the number of the node and the five subscriptions, by kind, port and size.
    pub wlmio_init-IsLive :
        (w' : World Ins) × (wlmio_init setup os w ≡ some (pos 0, w'))
        × IsLive IsSafe w'
        × (w'.fds ≡ can_entry ∷ [])
        × (w'.tasks ≡ [])
        × (w'.canard
            ≡ subscribe setup subscriptions
                (setup.set_node_id opens.node (setup.set_mtu_bytes mtu_can_fd setup.init)))
        × ((n : ℕ) → (w'.nodes n ≡ offline) × (w'.timers n ≡ none))
    wlmio_init-IsLive = (
      reset_nodes node_count 0 prepared,
      init_result,
      live,
      ap (λ (v : World Ins). v.fds) (reset-keeps node_count 0 prepared),
      ap (λ (v : World Ins). v.tasks) (reset-keeps node_count 0 prepared) ∙ start.no_tasks,
      ap (λ (v : World Ins). v.canard) (reset-keeps node_count 0 prepared),
      idle,
    )
