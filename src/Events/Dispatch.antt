-- ===== src/Events/Dispatch.antt =====
-- Which handler an event runs.
use libwlmio.Prelude.{◌≡◌, none, some}
use libwlmio.Wire.{Dsdl}
use libwlmio.State.{World, Canard, Frame, Transfer, FdEntry, Handler}
use libwlmio.Fds.{entry_at}
use libwlmio.Async.{Call, async_timeout}
use libwlmio.Heartbeat.{StatusCall, heartbeat_timeout}
use libwlmio.Events.{
  Event, accepted_frame, handle_transfer, can_socket_handler, handle, handle_event, accept,
}

module _ {Ins : Type 0} (can : Canard Ins) (d : Dsdl) (call : Call Ins)
    (status_call : StatusCall Ins) (ev : Event) (w : World Ins) where
  module _ (e : FdEntry) (listed : entry_at ev.entry w.fds ≡ some e) where
    pub socket_event :
        e.handler ≡ Handler.can_socket_handler
        → handle_event can d call status_call ev w ≡ can_socket_handler can d call status_call ev w
    unfolding handle_event handle
    socket_event handles = rw (listed, handles)

    pub task_event :
        e.handler ≡ Handler.async_handler
        → handle_event can d call status_call ev w ≡ async_timeout call ev.entry w
    unfolding handle_event handle
    task_event handles = rw (listed, handles)

    pub node_event :
        e.handler ≡ Handler.heartbeat_timeout_handler
        → handle_event can d call status_call ev w ≡ heartbeat_timeout status_call ev.entry w
    unfolding handle_event handle
    node_event handles = rw (listed, handles)

  pub read_nothing : ev.frame ≡ none → can_socket_handler can d call status_call ev w ≡ some w
  unfolding can_socket_handler
  read_nothing h = rw h

  module _ (frame : Frame) (read : ev.frame ≡ some frame) (i : Ins) where
    pub read_part :
        can.rx_accept w.canard (accepted_frame frame) ≡ (i, none)
        → can_socket_handler can d call status_call ev w ≡ some (record w { canard = i })
    unfolding can_socket_handler accept
    read_part h = rw (read, h)

    pub read_transfer :
        (tfr : Transfer)
        → can.rx_accept w.canard (accepted_frame frame) ≡ (i, some tfr)
        → can_socket_handler can d call status_call ev w
          ≡ handle_transfer can d call status_call ev.os tfr (record w { canard = i })
    unfolding can_socket_handler accept
    read_transfer tfr h = rw (read, h)
