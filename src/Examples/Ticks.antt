-- ===== src/Examples/Ticks.antt =====
-- A tick that takes the reply to an access from the socket.
use libwlmio.Prelude.{◌≡◌, refl, List, [], ◌∷◌, none, some, pos, arith}
use libwlmio.State.{World, Canard, Frame}
use libwlmio.Register.Widths.{uint16_widths}
use libwlmio.Register.Response.RoundTrip.{received}
use libwlmio.Fds.{entry_at}
use libwlmio.Async.Linked.{IsLinked}
use libwlmio.Async.Complete.{Ended}
use libwlmio.Transport.{uavcan_send}
use libwlmio.Responses.Access.{stored}
use libwlmio.Heartbeat.{StatusCall}
use libwlmio.Events.{Event, wlmio_tick}
use libwlmio.Events.Reply.{Delivers, tick_access_reply}
use libwlmio.Examples.Setup.{plain, frames, quiet, socket_entry}
use libwlmio.Examples.Registers.{pair, pair-IsReg, pair-valid, reply}
use libwlmio.Examples.Tasks.{answered, task, waiting, waiting-IsLinked, found, quiet-Appends}

-- Each frame is one transfer: a reply of node 42.
abbrev pub replies : Canard (List Frame)
replies = record frames { rx_accept = λ q f. (q, some (record answered { payload = f.bytes })) }

abbrev pub unmoved : StatusCall (List Frame)
unmoved f node old new w = some w

abbrev pub reply_frame : Frame
reply_frame = record { can_id = 0; bytes = reply }

abbrev pub event : Event
event = record {
  entry = 100;
  frame = some reply_frame;
  os = record { timer = none; entry_memory = none };
}

deliver : Delivers replies plain quiet unmoved event waiting [] answered
unfolding entry_at
deliver = record {
  socket = socket_entry;
  frame = reply_frame;
  socket_at = refl;
  handled = refl;
  frame_read = refl;
  completes = refl;
}

abbrev answer_taken : World (List Frame)
answer_taken = stored waiting 500 (received pair uint16_widths)

answer_taken-IsLinked : IsLinked answer_taken
answer_taken-IsLinked = record {
  addresses = waiting-IsLinked.addresses;
  timers_apart = waiting-IsLinked.timers_apart;
  watched = waiting-IsLinked.watched;
}

tick_access_reply_example :
    (last : World (List Frame)) × Ended answer_taken answer_taken task (some last)
    × (wlmio_tick replies plain quiet unmoved 3 (event ∷ []) waiting
        ≡ some (pos 0, uavcan_send replies 3 last))
tick_access_reply_example =
    tick_access_reply replies plain quiet unmoved event waiting [] answer_taken answered task 500
      pair uint16_widths 3 deliver refl refl waiting-IsLinked found refl pair-IsReg pair-valid
      (omega arith) refl refl (quiet-Appends answer_taken answer_taken-IsLinked)
