-- ===== src/Examples/Infos.antt =====
-- The reply of a node that was asked for its information.
use libwlmio.Prelude.{◌≡◌, refl, List, [], ◌∷◌, some, ◌+◌, ◌*◌}
use libwlmio.State.{World, Frame, Transfer, Task, response}
use libwlmio.NodeInfo.RoundTrip.{reply_format, info_of}
use libwlmio.Fds.{entry_at}
use libwlmio.Async.{task_with_id}
use libwlmio.Async.Linked.{IsLinked}
use libwlmio.Async.Complete.{Ended}
use libwlmio.Transport.{make_rsp_specifier}
use libwlmio.Responses.{get_node_info_response_handler}
use libwlmio.Responses.Info.{informed, node_info_reply}
use libwlmio.Examples.Setup.{plain, quiet, initialised, socket_entry}
use libwlmio.Examples.Nodes.{node, node-IsAnnounced}
use libwlmio.Examples.Tasks.{task, timer_entry, quiet-Appends}

abbrev told : Transfer
told = record {
  transfer_kind = response;
  port_id = 430;
  remote_node_id = 42;
  transfer_id = 0;
  payload = reply_format node (0 ∷ []);
}

abbrev inquiry : Task
inquiry = record task { id = 42 + 430 * 4096 }

abbrev inquiring : World (List Frame)
inquiring = record initialised { tasks = inquiry ∷ []; fds = socket_entry ∷ timer_entry ∷ [] }

inquiring-IsLinked : IsLinked inquiring
unfolding entry_at
inquiring-IsLinked = record {
  addresses = (tt, tt);
  timers_apart = (tt, tt);
  watched = ((timer_entry, refl, refl), tt);
}

inquiry_waits : task_with_id (make_rsp_specifier told) inquiring.tasks ≡ some inquiry
unfolding task_with_id make_rsp_specifier
inquiry_waits = refl

abbrev knowing : World (List Frame)
knowing = informed inquiring 500 (info_of node)

knowing-IsLinked : IsLinked knowing
knowing-IsLinked = record {
  addresses = inquiring-IsLinked.addresses;
  timers_apart = inquiring-IsLinked.timers_apart;
  watched = inquiring-IsLinked.watched;
}

node_info_reply_example :
    Ended knowing knowing inquiry (get_node_info_response_handler plain quiet told inquiring)
node_info_reply_example =
    node_info_reply plain quiet inquiring knowing told inquiry 500 node (0 ∷ []) inquiring-IsLinked
      inquiry_waits refl node-IsAnnounced refl refl (quiet-Appends knowing knowing-IsLinked)
