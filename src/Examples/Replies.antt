-- ===== src/Examples/Replies.antt =====
-- The replies to a request for a name and to a command.
use libwlmio.Prelude.{◌≡◌, refl, List, [], ◌∷◌, some, arith, ◌+◌, ◌*◌}
use libwlmio.State.{World, Frame, Transfer, Task}
use libwlmio.Fds.{entry_at}
use libwlmio.Async.{task_with_id}
use libwlmio.Async.Linked.{IsLinked}
use libwlmio.Async.Complete.{Ended}
use libwlmio.Transport.{make_rsp_specifier}
use libwlmio.Responses.{register_list_response_handler, execute_command_response_handler}
use libwlmio.Responses.Names.{listed, register_list_reply}
use libwlmio.Responses.Commands.{execute_command_reply}
use libwlmio.Examples.Setup.{plain, quiet, initialised, socket_entry}
use libwlmio.Examples.Tasks.{answered, task, timer_entry, quiet-Appends}

-- The name "ch1".
abbrev named : Transfer
named = record answered { port_id = 385; payload = 3 ∷ 99 ∷ 104 ∷ 49 ∷ [] }

abbrev listing : Task
listing = record task { id = 42 + 385 * 4096 }

abbrev listing_world : World (List Frame)
listing_world = record initialised { tasks = listing ∷ []; fds = socket_entry ∷ timer_entry ∷ [] }

listing_world-IsLinked : IsLinked listing_world
unfolding entry_at
listing_world-IsLinked = record {
  addresses = (tt, tt);
  timers_apart = (tt, tt);
  watched = ((timer_entry, refl, refl), tt);
}

listing_waits : task_with_id (make_rsp_specifier named) listing_world.tasks ≡ some listing
unfolding task_with_id make_rsp_specifier
listing_waits = refl

abbrev name_stored : World (List Frame)
name_stored = listed plain quiet listing_world listing_world named listing 500 (99 ∷ 104 ∷ 49 ∷ [])

name_stored-IsLinked : IsLinked name_stored
name_stored-IsLinked = record {
  addresses = listing_world-IsLinked.addresses;
  timers_apart = listing_world-IsLinked.timers_apart;
  watched = listing_world-IsLinked.watched;
}

register_list_reply_example :
    Ended name_stored name_stored listing
      (register_list_response_handler plain quiet named listing_world)
register_list_reply_example =
    register_list_reply plain quiet listing_world name_stored named listing 500 (99 ∷ 104 ∷ 49 ∷ [])
      listing_world-IsLinked listing_waits refl refl (omega arith) refl
      (quiet-Appends name_stored name_stored-IsLinked)

-- A command that the node refuses.
abbrev denied : Transfer
denied = record answered { port_id = 435; payload = 3 ∷ [] }

abbrev order : Task
order = record task { id = 42 + 435 * 4096 }

abbrev ordering : World (List Frame)
ordering = record initialised { tasks = order ∷ []; fds = socket_entry ∷ timer_entry ∷ [] }

ordering-IsLinked : IsLinked ordering
unfolding entry_at
ordering-IsLinked = record {
  addresses = (tt, tt);
  timers_apart = (tt, tt);
  watched = ((timer_entry, refl, refl), tt);
}

order_waits : task_with_id (make_rsp_specifier denied) ordering.tasks ≡ some order
unfolding task_with_id make_rsp_specifier
order_waits = refl

execute_command_reply_example :
    Ended ordering ordering order (execute_command_response_handler plain quiet denied ordering)
execute_command_reply_example =
    execute_command_reply plain quiet ordering ordering denied order 3 [] ordering-IsLinked
      order_waits refl (omega arith) refl (quiet-Appends ordering ordering-IsLinked)
