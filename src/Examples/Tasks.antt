-- ===== src/Examples/Tasks.antt =====
-- A register access: the request, the reply and the timeout.
use libwlmio.Prelude.{
  ◌<◌, ◌≡◌, ◌↔◌, refl, List, [], ◌∷◌, ◌++◌, map, none, some, arith, pos, take, drop, ◌*◌, sym, ◌+◌,
  append-nil,
}
use libwlmio.State.{
  World, Frame, Transfer, Task, FdEntry, response, request, application, async_handler,
}
use libwlmio.Register.Request.Format.{request_head}
use libwlmio.Register.Layout.{value_layout}
use libwlmio.Register.Widths.{uint16_widths}
use libwlmio.Register.Response.RoundTrip.{received}
use libwlmio.Fds.{entry_at}
use libwlmio.Async.{task_with_id, task_at, async_complete, async_timeout, it_value}
use libwlmio.Async.Linked.{IsLinked}
use libwlmio.Async.Add.{it_value_exact}
use libwlmio.Async.Complete.{Appends, Ended, async_complete-Ended, async_timeout-Ended}
use libwlmio.Transport.{on_bus, uavcan_send, make_rsp_specifier}
use libwlmio.Transport.Specifier.{IsService, make_rsp_specifier-eq}
use libwlmio.Transport.Sending.{uavcan_send-order}
use libwlmio.Requests.{wlmio_register_access}
use libwlmio.Requests.Start.{Ready}
use libwlmio.Requests.Access.{Asks, write-Asks}
use libwlmio.Responses.{register_access_response_handler}
use libwlmio.Responses.Access.{stored, access_reply}
use libwlmio.Examples.Setup.{
  plain, frames, frames-IsQueue, quiet, initialised, answers, socket_entry,
}
use libwlmio.Examples.Registers.{pair, pair-IsReg, pair-valid, reply}

pub initialised-IsLinked : IsLinked initialised
initialised-IsLinked = record { addresses = tt; timers_apart = tt; watched = tt }

unfoldable pub ready : Ready answers initialised
unfolding task_at entry_at
ready = record {
  epoll = 4;
  task = 200;
  timer = 6;
  entry = 101;
  initialised = refl;
  payload_given = refl;
  task_given = refl;
  timer_given = refl;
  timer_set = refl;
  entry_given = refl;
  task_new = refl;
  entry_new = refl;
}

write-Asks_example :
    Asks frames answers initialised ready initialised-IsLinked 42
      (omega arith)
      b'c'
      (b'h' ∷ [])
      (application 1)
      none
      (request_head (b'c' ∷ b'h' ∷ []) pair.type ++ value_layout pair)
      (some 500)
      (wlmio_register_access frames answers 42
        (some (b'c' ∷ b'h' ∷ []))
        (some pair)
        (some 500)
        (some (application 1))
        none
        initialised)
write-Asks_example =
    write-Asks frames answers initialised ready initialised-IsLinked 42 (omega arith) b'c'
      (b'h' ∷ []) (application 1) none pair (some 500) pair-IsReg pair-valid

-- A world in which one access to node 42 waits.
abbrev pub answered : Transfer
answered = record {
  transfer_kind = response;
  port_id = 384;
  remote_node_id = 42;
  transfer_id = 0;
  payload = reply;
}

abbrev pub task : Task
task = record {
  addr = 200;
  id = 42 + 384 * 4096;
  timer = 101;
  param = some 500;
  callback = application 1;
  uparam = none;
}

abbrev pub timer_entry : FdEntry
timer_entry = record { addr = 101; fd = some 6; handler = async_handler }

abbrev pub waiting : World (List Frame)
waiting = record initialised { tasks = task ∷ []; fds = socket_entry ∷ timer_entry ∷ [] }

pub waiting-IsLinked : IsLinked waiting
unfolding entry_at
waiting-IsLinked = record {
  addresses = (tt, tt);
  timers_apart = (tt, tt);
  watched = ((timer_entry, refl, refl), tt);
}

specifier : make_rsp_specifier answered ≡ task.id
unfolding make_rsp_specifier
specifier = refl

first_waiting : task_with_id task.id waiting.tasks ≡ some task
unfolding task_with_id
first_waiting = refl

pub found : task_with_id (make_rsp_specifier answered) waiting.tasks ≡ some task
found = rw specifier first_waiting

pub quiet-Appends : (w : World (List Frame)) → IsLinked w → Appends w w
quiet-Appends w h = record {
  tasks = [];
  fds = [];
  tasks_after = sym (append-nil w.tasks);
  fds_after = sym (append-nil w.fds);
  linked = h;
}

abbrev filled : World (List Frame)
filled = stored waiting 500 (received pair uint16_widths)

filled-IsLinked : IsLinked filled
filled-IsLinked = record {
  addresses = waiting-IsLinked.addresses;
  timers_apart = waiting-IsLinked.timers_apart;
  watched = waiting-IsLinked.watched;
}

access_reply_example :
    Ended filled filled task (register_access_response_handler plain quiet answered waiting)
access_reply_example =
    access_reply plain quiet waiting filled answered task 500 pair uint16_widths waiting-IsLinked
      found refl pair-IsReg pair-valid (omega arith) refl refl
      (quiet-Appends filled filled-IsLinked)

async_complete-Ended_example :
    Ended waiting waiting task (async_complete quiet task.id (pos 0) waiting)
async_complete-Ended_example =
    async_complete-Ended quiet waiting waiting task waiting-IsLinked task.id (pos 0) first_waiting
      refl (quiet-Appends waiting waiting-IsLinked)

at_address : task_at task.addr waiting.tasks ≡ some task
unfolding task_at
at_address = refl

async_timeout-Ended_example : Ended waiting waiting task (async_timeout quiet task.timer waiting)
async_timeout-Ended_example =
    async_timeout-Ended quiet waiting waiting task waiting-IsLinked at_address refl
      (quiet-Appends waiting waiting-IsLinked)

it_value_exact_example :
    ((it_value 2500000).0 * 1000000000 + (it_value 2500000).1 ≡ 2500000 * 1000)
    × ((it_value 2500000).1 < 1000000000)
it_value_exact_example = it_value_exact 2500000

abbrev asked : Transfer
asked = record {
  transfer_kind = request;
  port_id = 384;
  remote_node_id = 42;
  transfer_id = 1;
  payload = [];
}

asked-IsService : IsService asked
asked-IsService = record {
  node_fits = omega arith;
  transfer_fits = omega arith;
  port_fits = omega arith;
}

answered-IsService : IsService answered
answered-IsService = record {
  node_fits = omega arith;
  transfer_fits = omega arith;
  port_fits = omega arith;
}

-- The requests 0 and 1 to a node differ.
make_rsp_specifier-eq_example :
    ((make_rsp_specifier asked ≡ make_rsp_specifier answered) ↔ (
      (asked.remote_node_id ≡ answered.remote_node_id)
      × (asked.transfer_id ≡ answered.transfer_id)
      × (asked.port_id ≡ answered.port_id)))
    × (make_rsp_specifier asked < 2097152)
make_rsp_specifier-eq_example =
    make_rsp_specifier-eq asked answered asked-IsService answered-IsService

abbrev queued : World (List Frame)
queued = record initialised {
  canard = record { can_id = 1; bytes = [] } ∷ record { can_id = 2; bytes = [] } ∷ [];
}

uavcan_send-order_example :
    ((uavcan_send frames 1 queued).bus ≡ queued.bus ++ map on_bus (take 1 queued.canard))
    × ((uavcan_send frames 1 queued).canard ≡ drop 1 queued.canard)
uavcan_send-order_example = uavcan_send-order frames (λ q. q) frames-IsQueue 1 queued
