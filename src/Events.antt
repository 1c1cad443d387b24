-- ===== src/Events.antt =====
-- What happens on the file descriptors: `can_socket_handler`, the loop of `wlmio_tick`, and the two
-- setters of src/libwlmio/wlmio.c.
pub mod Dispatch
pub mod Reply
use Prim.Native.Nat.{bit_and}
use libwlmio.Prelude.{
  ℕ, ℤ, pos, ◌==◌, ◌&&◌, Bool, true, false, List, [], ◌∷◌, Option, none, some, ◌>>=◌, if◌then◌else◌,
}
use libwlmio.Wire.{Dsdl}
use libwlmio.State.{
  World, Canard, Frame, Transfer, TransferKind, message, response, request, FdEntry, Handler,
}
use libwlmio.Fds.{entry_at}
use libwlmio.Async.{Call, async_timeout}
use libwlmio.Transport.{uavcan_send}
use libwlmio.Responses.{
  get_node_info_response_handler, register_list_response_handler, register_access_response_handler,
  execute_command_response_handler,
}
use libwlmio.Heartbeat.{StatusCall, TimerAnswers, heartbeat_handler, heartbeat_timeout}

-- One event that `epoll_wait` gives: the address of its entry, what a read of the socket gives, and
-- what the calls of the system give to a heartbeat.
pub record Event : Type 0 where
  pub entry : ℕ
  pub frame : Option Frame
  pub os : TimerAnswers

abbrev pub is_message : TransferKind → Bool
is_message message = true
is_message response = false
is_message request = false

abbrev pub is_response : TransferKind → Bool
is_response message = false
is_response response = true
is_response request = false

-- frame.can_id & 0x1FFFFFFF
abbrev pub accepted_frame : Frame → Frame
accepted_frame frame = record frame { can_id = bit_and frame.can_id 0x1fff_ffff }

module _ {Ins : Type 0} (can : Canard Ins) (d : Dsdl) (call : Call Ins)
    (status_call : StatusCall Ins) where
  -- Other transfers are dropped.
  unfoldable pub handle_transfer : TimerAnswers → Transfer → World Ins → Option (World Ins)
  handle_transfer os tfr w =
      if tfr.port_id == 7509 && is_message tfr.transfer_kind
      then heartbeat_handler status_call d os tfr w
      else if tfr.port_id == 430 && is_response tfr.transfer_kind
      then get_node_info_response_handler d call tfr w
      else if tfr.port_id == 385 && is_response tfr.transfer_kind
      then register_list_response_handler d call tfr w
      else if tfr.port_id == 384 && is_response tfr.transfer_kind
      then register_access_response_handler d call tfr w
      else if tfr.port_id == 435 && is_response tfr.transfer_kind
      then execute_command_response_handler d call tfr w
      else some w

  accept : TimerAnswers → Ins × Option Transfer → World Ins → Option (World Ins)
  accept os (canard, none) w = some (record w { canard = canard })
  accept os (canard, some tfr) w = handle_transfer os tfr (record w { canard = canard })

  unfoldable pub can_socket_handler : Event → World Ins → Option (World Ins)
  unfolding accept
  can_socket_handler ev w = elim ev.frame [
    | none ↦ some w
    | some frame ↦ accept ev.os (can.rx_accept w.canard (accepted_frame frame)) w
  ]

  handle : Handler → Event → World Ins → Option (World Ins)
  unfolding can_socket_handler
  handle Handler.can_socket_handler ev w = can_socket_handler ev w
  handle Handler.async_handler ev w = async_timeout call ev.entry w
  handle Handler.heartbeat_timeout_handler ev w = heartbeat_timeout status_call ev.entry w

  -- entry->handler(entry): an entry that was freed is a fault.
  unfoldable pub handle_event : Event → World Ins → Option (World Ins)
  unfolding handle
  handle_event ev w = do entry ← entry_at ev.entry w.fds; handle entry.handler ev w

  unfoldable pub handle_events : List Event → World Ins → Option (World Ins)
  unfolding handle_event
  handle_events [] w = some w
  handle_events (ev ∷ rest) w = do w ← handle_event ev w; handle_events rest w

  -- The events up to the first that `epoll_wait` does not give, then the frames.
  unfoldable pub wlmio_tick : ℕ → List Event → World Ins → Option (ℤ × World Ins)
  unfolding handle_events
  wlmio_tick room events w = do w ← handle_events events w; some (pos 0, uavcan_send can room w)

unfoldable pub wlmio_set_timeout : {Ins : Type 0} → ℕ → World Ins → World Ins
wlmio_set_timeout us w = record w { timeout = us }

unfoldable pub wlmio_set_status_callback : {Ins : Type 0} → Option ℕ → World Ins → World Ins
wlmio_set_status_callback callback w = record w { user_callback = callback }
