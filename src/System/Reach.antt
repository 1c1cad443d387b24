-- ===== src/System/Reach.antt =====
-- What a program can do with the library, step by step, and what holds of every state that it
-- reaches.
use libwlmio.Prelude.{ℕ, ℤ, ◌≡◌, sym, ◌∙◌, subst, List, Option, some, eq_of_some}
use libwlmio.Wire.{Dsdl}
use libwlmio.State.{World, Canard, Callback}
use libwlmio.Register.{Reg}
use libwlmio.Async.{Call}
use libwlmio.Transport.{uavcan_send}
use libwlmio.Transport.Sending.{uavcan_send-keeps}
use libwlmio.Requests.{
  RequestAnswers, wlmio_get_node_info, wlmio_register_list, wlmio_register_access,
  wlmio_execute_command,
}
use libwlmio.Heartbeat.{StatusCall}
use libwlmio.Events.{Event, handle_event, wlmio_set_timeout, wlmio_set_status_callback}
use libwlmio.System.{IsLive}
use libwlmio.System.Tasks.{Behaves, Notices}
use libwlmio.System.Requests.{IsFresh}
use libwlmio.System.Asked.{
  get_node_info-Extends, register_list-Extends, register_access-Extends, execute_command-Extends,
}
use libwlmio.System.Events.{IsDue, handle_event-Settles}

module _ {Ins : Type 0} (IsSafe : Callback → Type 0) (can : Canard Ins) (d : Dsdl) (call : Call Ins)
    (status_call : StatusCall Ins) where
  -- A call of the library that returned, one event of a tick, or the frames that a tick sends.
  pub data Step (w : World Ins) : World Ins → Type 0 where
    happens :
        {w' : World Ins} (ev : Event)
        → IsDue can ev w
        → handle_event can d call status_call ev w ≡ some w'
        → Step w w'
    sends : (room : ℕ) → Step w (uavcan_send can room w)
    asks_info :
        {w' : World Ins} (os : RequestAnswers) (node_id : ℕ) (node_info : Option ℕ)
        (callback : Option Callback) (uparam : Option ℕ) (r : ℤ)
        → IsFresh os.async w
        → ((c : Callback) → callback ≡ some c → IsSafe c)
        → wlmio_get_node_info can os node_id node_info callback uparam w ≡ some (r, w')
        → Step w w'
    asks_list :
        {w' : World Ins} (os : RequestAnswers) (node_id index : ℕ) (name : Option ℕ)
        (callback : Option Callback) (uparam : Option ℕ) (r : ℤ)
        → IsFresh os.async w
        → ((c : Callback) → callback ≡ some c → IsSafe c)
        → wlmio_register_list can os node_id index name callback uparam w ≡ some (r, w')
        → Step w w'
    asks_access :
        {w' : World Ins} (os : RequestAnswers) (node_id : ℕ) (name : Option (List ℕ))
        (regw : Option Reg) (regr : Option ℕ) (callback : Option Callback) (uparam : Option ℕ)
        (r : ℤ)
        → IsFresh os.async w
        → ((c : Callback) → callback ≡ some c → IsSafe c)
        → wlmio_register_access can os node_id name regw regr callback uparam w ≡ some (r, w')
        → Step w w'
    asks_command :
        {w' : World Ins} (os : RequestAnswers) (node_id command : ℕ) (param : Option (List ℕ))
        (param_len : ℕ) (callback : Option Callback) (uparam : Option ℕ) (r : ℤ)
        → IsFresh os.async w
        → ((c : Callback) → callback ≡ some c → IsSafe c)
        → wlmio_execute_command can os node_id command param param_len callback uparam w
          ≡ some (r, w')
        → Step w w'
    sets_timeout : (us : ℕ) → Step w (wlmio_set_timeout us w)
    sets_callback : (f : Option ℕ) → Step w (wlmio_set_status_callback f w)

  pub data Reaches (w : World Ins) : World Ins → Type 0 where
    here : Reaches w w
    further : {v w' : World Ins} → Reaches w v → Step v w' → Reaches w w'

  module _ (behaves : Behaves IsSafe call) (notices : Notices IsSafe status_call) where
    Step-IsLive : (w w' : World Ins) → IsLive IsSafe w → Step w w' → IsLive IsSafe w'
    unfolding wlmio_set_timeout wlmio_set_status_callback
    Step-IsLive w w' h (happens ev due e) =
        let (v, done, live) =
          handle_event-Settles IsSafe can d call behaves status_call notices ev w h due in
        subst (IsLive IsSafe) (eq_of_some (sym done ∙ e)) live
    Step-IsLive w w' h (sends room) = subst (IsLive IsSafe) (sym (uavcan_send-keeps can room w)) h
    Step-IsLive w w' h (asks_info os node_id node_info callback uparam r fresh safe e) =
        (get_node_info-Extends IsSafe can os callback safe uparam w h fresh r w' node_id node_info
          e).live
    Step-IsLive w w' h (asks_list os node_id index name callback uparam r fresh safe e) =
        (register_list-Extends IsSafe can os callback safe uparam w h fresh r w' node_id index name
          e).live
    Step-IsLive w w' h (asks_access os node_id name regw regr callback uparam r fresh safe e) =
        (register_access-Extends IsSafe can os callback safe uparam w h fresh r w' node_id name regw
          regr e).live
    Step-IsLive w w' h
          (asks_command os node_id command param param_len callback uparam r fresh safe e) =
        (execute_command-Extends IsSafe can os callback safe uparam w h fresh r w' node_id command
          param param_len e).live
    Step-IsLive w w' h (sets_timeout us) = h
    Step-IsLive w w' h (sets_callback f) = h

    -- The invariant holds of every state that is reached from one where it holds.
    pub Reaches-IsLive : (w w' : World Ins) → IsLive IsSafe w → Reaches w w' → IsLive IsSafe w'
    Reaches-IsLive w w' h here = h
    Reaches-IsLive w w' h (further {v = v} path step) =
        Step-IsLive v w' (Reaches-IsLive w v h path) step
