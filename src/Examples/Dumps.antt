-- ===== src/Examples/Dumps.antt =====
-- A node with one register, whose name is "c" and whose value is the number 300, and the calls of the
-- library that ask for it.
use libwlmio.Prelude.{ℕ, ◌≡◌, refl, List, [], ◌∷◌, none, some, arith, drop, Option, get_or}
use libwlmio.Wire.{zeros, read_at, le_value, le_bytes, emit, copy_to}
use libwlmio.State.{Canard, Frame, Transfer, response}
use libwlmio.Register.{
  Reg, register_value_bit_width, register_value_length_width, validate_register_access, max_length,
}
use libwlmio.Register.Kind
use libwlmio.Register.Request.{request_payload}
use libwlmio.Register.Response.{read_response}
use libwlmio.Fds.{entry_at, fd_entry_find, fd_entry_add, fd_entry_close, unlink}
use libwlmio.Async.{
  task_with_id, task_at, task_with_timer, without, async_add, async_complete, async_get_param,
  async_remove_entry,
}
use libwlmio.Transport.{uavcan_send, make_rsp_specifier}
use libwlmio.Heartbeat.{StatusCall}
use libwlmio.Requests.{
  RequestAnswers, begin, wlmio_register_list, wlmio_register_access, refuses_access,
}
use libwlmio.Responses.{
  read_listed_name, register_list_response_handler, register_access_response_handler,
}
use libwlmio.Events.{handle_transfer, can_socket_handler, handle_event, handle_events, wlmio_tick}
use libwlmio.Io.Dispatch.{io_call}
use libwlmio.Sync.{
  Round, sync_call, library_call, wait, run_sync, wlmio_register_list_sync,
  wlmio_register_access_sync,
}
use libwlmio.Tools.RegTool.{Printed, print_register, print_numbers, numbers}
use libwlmio.Tools.RegTool.Dump.{Session, list_call, access_call, dump_registers}
use libwlmio.Tools.RegTool.Listing.{Listed, Answers, dump_registers-listed}
use libwlmio.Examples.Setup.{plain, quiet, initialised, answers}

abbrev number : Reg
number = record { type = Kind.uint16; len = 1; value = 44 ∷ 1 ∷ zeros 254 }

abbrev line : Printed
line = record { name = 99 ∷ zeros 50; type = Kind.uint16; elements = 300 ∷ [] }

number_line : print_register (99 ∷ zeros 50) number ≡ some line
unfolding print_register print_numbers numbers read_at le_value zeros
number_line = refl

abbrev registers : List Listed
registers =
    record {
      name = 99 ∷ zeros 50;
      value = number;
      line = line;
      named = λ p. omega arith;
      prints = number_line;
    }
    ∷ []

-- A reply of node 42 in a frame: its port, then its transfer identifier and its payload.
abbrev reply_of : ℕ → ℕ → List ℕ → Frame
reply_of port id payload = record { can_id = port; bytes = id ∷ payload }

abbrev first_reply : List Frame → Option Transfer
first_reply [] = none
first_reply (f ∷ rest) = some (record {
  transfer_kind = response;
  port_id = f.can_id;
  remote_node_id = 42;
  transfer_id = get_or f.bytes 0 0;
  payload = drop 1 f.bytes;
})

-- libcanard of which each frame completes the next of some replies.
abbrev script : Canard (List Frame)
script = record {
  tx_push = λ i t. i;
  tx_peek = λ i. none;
  tx_pop = λ i. i;
  rx_accept = λ i f. (drop 1 i, first_reply i);
}

abbrev unmoved : StatusCall (List Frame)
unmoved f node old new w = some w

-- A call in whose first round its reply comes.
abbrev round : Round
round = record {
  room = 1;
  events =
      record {
        entry = 100;
        frame = some (record { can_id = 0; bytes = [] });
        os = record { timer = none; entry_memory = none };
      }
      ∷ [];
}

abbrev one_call : RequestAnswers × List Round
one_call = (answers, round ∷ [])

abbrev session : Session (List Frame)
session = record {
  world = record initialised {
    canard =
        reply_of 385 0 (1 ∷ 99 ∷ [])
        ∷ reply_of 384 0 (0 ∷ 0 ∷ 0 ∷ 0 ∷ 0 ∷ 0 ∷ 0 ∷ 0 ∷ Kind.uint16 ∷ 1 ∷ 44 ∷ 1 ∷ [])
        ∷ reply_of 385 1 (0 ∷ [])
        ∷ [];
  };
  calls = one_call ∷ one_call ∷ one_call ∷ [];
}

library_answers : Answers script plain (library_call quiet) unmoved 500 600 42 0 registers session
unfolding list_call access_call wlmio_register_list_sync wlmio_register_access_sync run_sync wait
    library_call io_call sync_call wlmio_register_list wlmio_register_access refuses_access begin
    async_add async_complete async_get_param async_remove_entry task_with_id task_at task_with_timer
    without fd_entry_add fd_entry_find fd_entry_close entry_at unlink uavcan_send make_rsp_specifier
    request_payload validate_register_access max_length wlmio_tick handle_events handle_event
    can_socket_handler handle_transfer register_list_response_handler
    register_access_response_handler read_listed_name read_response register_value_bit_width
    register_value_length_width le_value le_bytes emit copy_to read_at zeros
library_answers = (_, _, refl, refl, (_, _, refl, refl))

dump_registers-listed_example :
    (s' : Session (List Frame)) × (dump_registers script plain
        (library_call quiet)
        unmoved
        500
        600
        42
        2
        0
        session
      ≡ some (line ∷ [], s'))
dump_registers-listed_example =
    dump_registers-listed script plain (library_call quiet) unmoved 500 600 42 registers session
      library_answers (omega arith)
