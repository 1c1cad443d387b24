-- ===== src/Heartbeat.antt =====
-- The table of nodes: `heartbeat_handler` and `heartbeat_timeout_handler` of
-- src/libwlmio/wlmio.c.
pub mod Tracking
pub mod Taken
pub mod Receive
pub mod Expire
use libwlmio.Prelude.{
  ℕ, zero, suc, ◌+◌, ◌*◌, List, [], ◌∷◌, ◌&&◌, not, Option, none, some, Bool, true, false, ◌>>=◌,
  ◌>>◌, check, leb, ◌==◌, if◌then◌else◌, length, ◌||◌,
}
use libwlmio.Wire.{Dsdl}
use libwlmio.State.{
  World, Transfer, Status, FdEntry, Handler, heartbeat_timeout_handler, mode_offline, offline,
  update,
}
use libwlmio.Fds.{same_fd, fd_entry_find, entry_at, fd_entry_close, fd_entry_add}
use libwlmio.Async.{is_open}

-- What a call of `user_callback` does: the function, the node, its old and its new status.
abbrev pub StatusCall : Type 0 → Type 0
StatusCall Ins = ℕ → ℕ → Status → Status → World Ins → Option (World Ins)

-- What the calls of the system give to one heartbeat: the timer that `timerfd_create` opens, and the
-- address of its entry.
pub record TimerAnswers : Type 0 where
  pub timer : Option ℕ
  pub entry_memory : Option ℕ

unfoldable pub read_status : Dsdl → List ℕ → Status
read_status d payload = record {
  uptime = d.get_u32 payload 0 32;
  health = d.get_u8 payload 32 2;
  mode = d.get_u8 payload 40 3;
  vendor_status = d.get_u8 payload 48 8;
}

-- The search for the node of a timer: indices from `i` on, of which `rounds` are left.
unfoldable pub node_of_timer : ℕ → ℕ → (ℕ → Option ℕ) → Option ℕ → Option ℕ
node_of_timer zero i timers fd = none
node_of_timer (suc rounds) i timers fd =
    let later = node_of_timer rounds (i + 1) timers fd in
    if same_fd (timers i) fd then some i else later

entry_address : Option FdEntry → Option ℕ
entry_address none = none
entry_address (some e) = some e.addr

-- CANARD_NODE_ID_UNSET
abbrev node_id_unset : ℕ
node_id_unset = 255

module _ {Ins : Type 0} (status_call : StatusCall Ins) where
  unfoldable pub notify : Option ℕ → ℕ → Status → Status → World Ins → Option (World Ins)
  notify none node old new w = some w
  notify (some f) node old new w = status_call f node old new w

  -- Stops the timer of a node that goes offline.
  stop_timer : ℕ → Status → World Ins → Option (World Ins)
  unfolding entry_address
  stop_timer node status w =
      if status.mode == mode_offline && is_open (w.timers node)
      then (do
        w ← fd_entry_close (entry_address (fd_entry_find (w.timers node) w.fds)) w
        some (record w { timers = update w.timers node none }))
      else some w

  -- Creates the timer of a node that comes online.
  start_timer : TimerAnswers → ℕ → Status → World Ins → Option (World Ins)
  start_timer os node status w =
      if not (status.mode == mode_offline) && not (is_open (w.timers node))
      then (do
        (entry, w) ←
            fd_entry_add os.entry_memory os.timer heartbeat_timeout_handler
              (record w { timers = update w.timers node os.timer })
        some w)
      else some w

  set_timer : Option ℕ → World Ins → World Ins
  set_timer none w = w
  set_timer (some fd) w = record w { armed = update w.armed fd (some (3, 0)) }

  -- Sets the timer of a node that is online to 3 seconds.
  reset_timer : ℕ → Status → World Ins → World Ins
  unfolding set_timer
  reset_timer node status w = if status.mode == mode_offline then w else set_timer (w.timers node) w

  pub track : TimerAnswers → ℕ → Status → World Ins → Option (World Ins)
  unfolding stop_timer start_timer reset_timer
  track os node status w = do
    w ← stop_timer node status w
    w ← start_timer os node status w
    some (reset_timer node status w)

  receive_status : TimerAnswers → ℕ → Status → World Ins → Option (World Ins)
  unfolding track notify
  receive_status os node status w = do
    check (leb node 127)
    let old_status = w.nodes node
    w ← track os node status (record w { nodes = update w.nodes node status })
    notify w.user_callback node old_status status w

  unfoldable pub heartbeat_handler : Dsdl → TimerAnswers → Transfer → World Ins → Option (World Ins)
  unfolding receive_status
  heartbeat_handler d os tfr w =
      if length tfr.payload == 0 || tfr.remote_node_id == node_id_unset
      then some w
      else receive_status os tfr.remote_node_id (read_status d tfr.payload) w

  go_offline : ℕ → ℕ → World Ins → Option (World Ins)
  unfolding notify
  go_offline entry node w = do
    w ← fd_entry_close (some entry) w
    let old_status = w.nodes node
    let gone : World Ins = record w {
      timers = update w.timers node none;
      nodes = update w.nodes node offline;
    }
    notify w.user_callback node old_status offline gone

  -- `node_id` is not set if none of the nodes 0 to 126 has the timer: a fault.
  unfoldable pub heartbeat_timeout : ℕ → World Ins → Option (World Ins)
  unfolding go_offline
  heartbeat_timeout entry w = do
    e ← entry_at entry w.fds
    node ← node_of_timer 127 0 w.timers e.fd
    go_offline entry node w
