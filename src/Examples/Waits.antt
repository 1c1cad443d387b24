-- ===== src/Examples/Waits.antt =====
-- A synchronous write that is answered, and one that is not.
use libwlmio.Prelude.{ℕ, ◌≡◌, refl, List, [], ◌∷◌, ◌++◌, none, some, pos, neg_etimedout, arith}
use libwlmio.State.{World, Frame, Task}
use libwlmio.Register.Widths.{uint16_widths}
use libwlmio.Fds.{entry_at}
use libwlmio.Async.{task_with_id, task_at}
use libwlmio.Async.Linked.{IsLinked}
use libwlmio.Async.Add.{with_task}
use libwlmio.Async.Complete.{Ended}
use libwlmio.Transport.{make_rsp_specifier, uavcan_send}
use libwlmio.Requests.Start.{Ready, started}
use libwlmio.Events.{Event}
use libwlmio.Events.Reply.{Delivers}
use libwlmio.Sync.{library_call, wlmio_register_access_sync}
use libwlmio.Sync.Waiting.{idle, sent}
use libwlmio.Sync.Timeout.{begun, flagged}
use libwlmio.Sync.Access.{
  written, write_task, unanswered, answered, wlmio_register_access_sync-timeout,
  wlmio_register_access_sync-reply,
}
use libwlmio.Examples.Setup.{plain, quiet, initialised, answers, socket_entry}
use libwlmio.Examples.Registers.{pair, pair-IsReg, pair-valid}
use libwlmio.Examples.Tasks
use libwlmio.Examples.Ticks.{replies, unmoved, reply_frame, event}

ready_to_wait : Ready answers (begun initialised)
unfolding task_at entry_at
ready_to_wait = record {
  epoll = 4;
  task = 200;
  timer = 6;
  entry = 101;
  initialised = refl;
  payload_given = refl;
  task_given = refl;
  timer_given = refl;
  timer_set = refl;
  entry_given = refl;
  task_new = refl;
  entry_new = refl;
}

begun-IsLinked : IsLinked (begun initialised)
begun-IsLinked = record { addresses = tt; timers_apart = tt; watched = tt }

abbrev timer_event : Event
timer_event = record event { entry = 101 }

timer_fires : timer_event.entry ≡ ready_to_wait.entry
unfolding ready_to_wait
timer_fires = refl

-- Two rounds without an event, then the timer.
abbrev pending : Event → World (List Frame)
pending ev =
    unanswered replies plain quiet unmoved answers initialised ready_to_wait begun-IsLinked 42
      (omega arith) b'c' (b'h' ∷ []) pair uint16_widths (some 500) pair-IsReg pair-valid
      (1 ∷ 0 ∷ []) [] 2 ev

abbrev pending_task : Event → Task
pending_task ev =
    write_task replies plain quiet unmoved answers initialised ready_to_wait begun-IsLinked 42
      (omega arith) b'c' (b'h' ∷ []) pair uint16_widths (some 500) pair-IsReg pair-valid
      (1 ∷ 0 ∷ []) [] 2 ev

wlmio_register_access_sync-timeout_example :
    (last : World (List Frame)) × Ended
      (pending timer_event)
      (flagged (pending timer_event) neg_etimedout)
      (pending_task timer_event)
      (some last)
    × (wlmio_register_access_sync replies plain
          (library_call quiet)
          unmoved
          answers
          42
          (some (b'c' ∷ b'h' ∷ []))
          (some pair)
          (some 500)
          (idle (1 ∷ 0 ∷ []) ++ (record { room = 2; events = timer_event ∷ [] } ∷ []))
          initialised
        ≡ some (some neg_etimedout, uavcan_send replies 2 last))
wlmio_register_access_sync-timeout_example =
    wlmio_register_access_sync-timeout replies plain quiet unmoved answers initialised ready_to_wait
      begun-IsLinked 42 (omega arith) b'c' (b'h' ∷ []) pair uint16_widths (some 500) pair-IsReg
      pair-valid (1 ∷ 0 ∷ []) [] 2 timer_event timer_fires

pending-Delivers :
    Delivers replies plain
      (library_call quiet)
      unmoved
      event
      (pending event)
      (pending event).canard
      Tasks.answered
unfolding ready_to_wait entry_at sent uavcan_send started with_task
pending-Delivers = record {
  socket = socket_entry;
  frame = reply_frame;
  socket_at = refl;
  handled = refl;
  frame_read = refl;
  completes = refl;
}

same_specifier :
    make_rsp_specifier Tasks.answered
    ≡ make_rsp_specifier (
        written replies plain quiet unmoved answers initialised ready_to_wait begun-IsLinked 42
          (omega arith)
          b'c'
          (b'h' ∷ [])
          pair
          uint16_widths
          (some 500)
          pair-IsReg
          pair-valid
          (1 ∷ 0 ∷ [])
          []
          2
          event)
unfolding make_rsp_specifier
same_specifier = refl

nothing_waits : (id : ℕ) → task_with_id id initialised.tasks ≡ none
unfolding task_with_id
nothing_waits id = refl

abbrev now_answered : World (List Frame)
now_answered =
    answered replies plain quiet unmoved answers initialised ready_to_wait begun-IsLinked 42
      (omega arith) b'c' (b'h' ∷ []) pair uint16_widths (some 500) pair-IsReg pair-valid
      (1 ∷ 0 ∷ []) [] 2 event (pending event).canard 500 refl Tasks.answered pair uint16_widths

wlmio_register_access_sync-reply_example :
    (last : World (List Frame)) × Ended now_answered
      (flagged now_answered (pos 0))
      (pending_task event)
      (some last)
    × (wlmio_register_access_sync replies plain
          (library_call quiet)
          unmoved
          answers
          42
          (some (b'c' ∷ b'h' ∷ []))
          (some pair)
          (some 500)
          (idle (1 ∷ 0 ∷ []) ++ (record { room = 2; events = event ∷ [] } ∷ []))
          initialised
        ≡ some (some (pos 0), uavcan_send replies 2 last))
wlmio_register_access_sync-reply_example =
    wlmio_register_access_sync-reply replies plain quiet unmoved answers initialised ready_to_wait
      begun-IsLinked 42 (omega arith) b'c' (b'h' ∷ []) pair uint16_widths (some 500) pair-IsReg
      pair-valid (1 ∷ 0 ∷ []) [] 2 event (pending event).canard 500 refl Tasks.answered pair
      uint16_widths pending-Delivers refl refl same_specifier (nothing_waits _) pair-IsReg
      pair-valid (omega arith) refl
