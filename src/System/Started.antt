-- ===== src/System/Started.antt =====
-- The library from the start of the program on.
use libwlmio.Prelude.{ℕ, ℤ, pos, ◌≡◌, sym, ◌∙◌, subst, List, [], ◌∷◌, some, eq_of_some, refl}
use libwlmio.Wire.{Dsdl}
use libwlmio.State.{World, Canard, Callback}
use libwlmio.Async.{Call}
use libwlmio.Transport.{uavcan_send}
use libwlmio.Transport.Sending.{uavcan_send-keeps}
use libwlmio.Heartbeat.{StatusCall}
use libwlmio.Events.{Event, handle_event, handle_events, wlmio_tick}
use libwlmio.Init.{CanardSetup, InitAnswers, wlmio_init}
use libwlmio.Init.Starts.{AtStart, Opens, wlmio_init-IsLive}
use libwlmio.System.{IsLive}
use libwlmio.System.Tasks.{Behaves, Notices, Settles}
use libwlmio.System.Events.{IsDue, handle_event-Settles}
use libwlmio.System.Reach.{Reaches, Reaches-IsLive}

module _ {Ins : Type 0} (can : Canard Ins) (d : Dsdl) (call : Call Ins)
    (status_call : StatusCall Ins) where
  -- Events that are due one after the other, each in the state that the ones before leave.
  abbrev pub AllDue : List Event → World Ins → Type 0
  AllDue [] w = Unit
  AllDue (ev ∷ rest) w =
      IsDue can ev w
      × ((w' : World Ins) → handle_event can d call status_call ev w ≡ some w' → AllDue rest w')

  module _ (IsSafe : Callback → Type 0) (behaves : Behaves IsSafe call)
      (notices : Notices IsSafe status_call) where
    handle_events-Settles :
        (events : List Event) (w : World Ins)
        → IsLive IsSafe w
        → AllDue events w
        → Settles IsSafe (handle_events can d call status_call events w)
    unfolding handle_events
    handle_events-Settles [] w h due = (w, refl, h)
    handle_events-Settles (ev ∷ rest) w h (due, later) =
        let (v, done, live) =
          handle_event-Settles IsSafe can d call behaves status_call notices ev w h due in
        let (w', rest_done, rest_live) = handle_events-Settles rest v live (later v done) in
        (w', rw done rest_done, rest_live)

    pub tick-Settles :
        (room : ℕ) (events : List Event) (w : World Ins)
        → IsLive IsSafe w
        → AllDue events w
        → (w' : World Ins) × (wlmio_tick can d call status_call room events w ≡ some (pos 0, w'))
          × IsLive IsSafe w'
    unfolding wlmio_tick
    tick-Settles room events w h due =
        let (v, done, after) = handle_events-Settles events w h due in
        (
          uavcan_send can room v,
          rw done,
          subst (IsLive IsSafe) (sym (uavcan_send-keeps can room v)) after,
        )

    -- A program starts with the tables and lists as the loader leaves them, calls wlmio_init with
    -- every call of the system succeeding, and then takes any number of steps: wlmio_get_node_info,
    -- wlmio_register_list, wlmio_register_access, wlmio_execute_command, wlmio_set_timeout,
    -- wlmio_set_status_callback, uavcan_send, or the handler of an event of an entry that is in the
    -- list of file descriptors. For every event the system would give a new timer and memory for
    -- its entry, and for every request memory for an entry, neither in use, and memory for a task
    -- is not in use where it is given; the functions that the program hands over return and do no
    -- more than start requests; and a transfer that an event completes has bytes for a payload and
    -- is no heartbeat that is not empty of a node above 126, other than the unset 255, no reply of
    -- more than 52 bytes with a register name and no register value that overruns its tables or
    -- buffer. In every state that it reaches, a tick with such events does not fault and returns 0,
    -- and then the invariant of tasks, timers, nodes and entries holds.
    pub wlmio_tick-returns :
        (setup : CanardSetup Ins) (os : InitAnswers) (start begun w : World Ins) (room : ℕ)
        (events : List Event)
        → AtStart start
        → Opens os
        → wlmio_init setup os start ≡ some (pos 0, begun)
        → Reaches IsSafe can d call status_call begun w
        → AllDue events w
        → (w' : World Ins) × (wlmio_tick can d call status_call room events w ≡ some (pos 0, w'))
          × IsLive IsSafe w'
    wlmio_tick-returns setup os start begun w room events at_start opens init path due =
        let (first, started, live, _, _, _, _) =
          wlmio_init-IsLive IsSafe setup os start at_start opens in
        let same = eq_of_some (sym started ∙ init) in
        let begun_live : IsLive IsSafe begun =
          subst (λ (x : ℤ × World Ins). IsLive IsSafe x.1) same live in
        let reached =
          Reaches-IsLive IsSafe can d call status_call behaves notices begun w begun_live path in
        tick-Settles room events w reached due
