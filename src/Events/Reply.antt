-- ===== src/Events/Reply.antt =====
-- The reply to a register access, from the frame on the socket to the end of its task.
use libwlmio.Prelude.{ℕ, ◌<◌, ◌≡◌, refl, ◌∙◌, ◌∷◌, [], some, pos, drop}
use libwlmio.Wire.{Dsdl}
use libwlmio.State.{World, Canard, Frame, Transfer, Task, FdEntry, Handler, response}
use libwlmio.Register.{Reg, IsReg, validate_register_access}
use libwlmio.Register.Widths.{Widths}
use libwlmio.Register.Request.Format.{value_format}
use libwlmio.Register.Response.RoundTrip.{received}
use libwlmio.Fds.{entry_at}
use libwlmio.Async.{Call, task_with_id}
use libwlmio.Async.Linked.{IsLinked}
use libwlmio.Async.Complete.{Appends, Ended}
use libwlmio.Transport.{make_rsp_specifier, uavcan_send}
use libwlmio.Responses.{register_access_response_handler}
use libwlmio.Responses.Access.{stored, access_reply}
use libwlmio.Heartbeat.{StatusCall}
use libwlmio.Events.{
  Event, accepted_frame, handle_transfer, can_socket_handler, handle, handle_event, handle_events,
  wlmio_tick, accept,
}

module _ {Ins : Type 0} (can : Canard Ins) (d : Dsdl) (call : Call Ins)
    (status_call : StatusCall Ins) (ev : Event) (w : World Ins) (i : Ins) where
  -- The world once libcanard has taken the frame.
  abbrev pub taken : World Ins
  taken = record w { canard = i }

  taken-IsLinked : IsLinked w → IsLinked taken
  taken-IsLinked h = record {
    addresses = h.addresses;
    timers_apart = h.timers_apart;
    watched = h.watched;
  }

  -- The socket gives a frame with which libcanard completes a transfer.
  pub record Delivers (tfr : Transfer) : Type 0 where
    pub socket : FdEntry
    pub frame : Frame
    pub socket_at : entry_at ev.entry w.fds ≡ some socket
    pub handled : socket.handler ≡ Handler.can_socket_handler
    pub frame_read : ev.frame ≡ some frame
    pub completes : can.rx_accept w.canard (accepted_frame frame) ≡ (i, some tfr)

  delivered :
      (tfr : Transfer)
      → Delivers tfr
      → handle_event can d call status_call ev w
        ≡ handle_transfer can d call status_call ev.os tfr taken
  unfolding handle_event handle can_socket_handler accept
  delivered tfr del = rw (del.socket_at, del.handled, del.frame_read, del.completes)

  access_handled :
      (tfr : Transfer)
      → tfr.port_id ≡ 384
      → tfr.transfer_kind ≡ response
      → handle_transfer can d call status_call ev.os tfr taken
        ≡ register_access_response_handler d call tfr taken
  unfolding handle_transfer
  access_handled tfr port kind = rw (port, kind)

  -- A tick in which the socket gives the frame that completes the reply to a register access, with an
  -- accepted value of a type other than the empty one: the task that waits first under the reply's
  -- specifier is ended, the value stored where the caller asked, and then the tick sends the frames
  -- that wait and returns 0. The caller's function returns and only adds to the lists.
  pub tick_access_reply :
      (w' : World Ins) (tfr : Transfer) (c : Task) (p : ℕ) (reg : Reg) (wd : Widths reg.type)
      (room : ℕ)
      → Delivers tfr
      → tfr.port_id ≡ 384
      → tfr.transfer_kind ≡ response
      → IsLinked w
      → task_with_id (make_rsp_specifier tfr) w.tasks ≡ some c
      → c.param ≡ some p
      → IsReg reg
      → validate_register_access (some reg) ≡ pos 0
      → 0 < reg.type
      → drop 8 tfr.payload ≡ reg.type ∷ value_format reg wd.bits wd.width
      → call c.callback (pos 0) c.uparam (stored taken p (received reg wd)) ≡ some w'
      → Appends (stored taken p (received reg wd)) w'
      → (last : World Ins) × Ended (stored taken p (received reg wd)) w' c (some last)
        × (wlmio_tick can d call status_call room (ev ∷ []) w
            ≡ some (pos 0, uavcan_send can room last))
  unfolding wlmio_tick handle_events
  tick_access_reply w' tfr c p reg wd room del port kind h e f r valid named at called g =
      let ended =
        access_reply d call taken w' tfr c p reg wd (taken-IsLinked h) e f r valid named at called
          g in
      let handled = delivered tfr del ∙ access_handled tfr port kind ∙ ended.result in
      (
        _,
        record {
          entry = ended.entry;
          was_watched = ended.was_watched;
          result = refl;
          linked = ended.linked;
          gone = ended.gone;
        },
        rw handled,
      )
