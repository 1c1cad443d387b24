-- ===== src/Examples/Pointers.antt =====
-- The list of file descriptors as its pointers: the socket between two timers.
use libwlmio.Prelude.{◌≡◌, refl, List, [], ◌∷◌, none, some, arith}
use libwlmio.State.{World, Frame, FdEntry, async_handler, heartbeat_timeout_handler, update}
use libwlmio.Fds.{entry_at, unlink, close, fd_entry_close, fd_entry_add, fd_entry_find}
use libwlmio.Fds.Pointers.{Store, entry_find, entry_close, entry_add, with}
use libwlmio.Fds.Pointers.Chain.{node_of}
use libwlmio.Fds.Pointers.Refinement.{
  Refines, entry_find-Refines, entry_close-Refines, entry_add-Refines,
}
use libwlmio.Examples.Setup.{initialised, socket_entry}

abbrev first_timer : FdEntry
first_timer = record { addr = 99; fd = some 3; handler = heartbeat_timeout_handler }

abbrev last_timer : FdEntry
last_timer = record { addr = 101; fd = some 6; handler = async_handler }

abbrev three : World (List Frame)
three = record initialised { fds = first_timer ∷ socket_entry ∷ last_timer ∷ [] }

abbrev stored : Store
stored = record {
  cells =
      update
        (update
          (update (λ a. none) 99 (some (node_of none first_timer (socket_entry ∷ last_timer ∷ []))))
          100 (some (node_of (some 99) socket_entry (last_timer ∷ []))))
        101 (some (node_of (some 100) last_timer []));
  head = some 99;
  armed = λ fd. none;
}

stored-Refines : Refines stored three
stored-Refines = record {
  list = record {
    head = refl;
    chain = (refl, (refl, (refl, tt)));
    apart = (((λ p. omega arith), ((λ p. omega arith), tt)), (((λ p. omega arith), tt), (tt, tt)));
  };
  timers = refl;
}

entry_find-Refines_example :
    entry_find 4 (some 6) stored
    ≡ some (with (λ (e : FdEntry). e.addr) (fd_entry_find (some 6) three.fds))
entry_find-Refines_example = entry_find-Refines stored three (some 6) 4 stored-Refines (omega arith)

abbrev two : World (List Frame)
two = record initialised {
  fds = first_timer ∷ last_timer ∷ [];
  armed = close (some 5) (λ fd. none);
}

closes : fd_entry_close (some 100) three ≡ some two
unfolding fd_entry_close entry_at unlink
closes = refl

entry_close-Refines_example :
    (s' : Store) × (entry_close 100 stored ≡ some s') × Refines s' two × (s'.cells 100 ≡ none)
entry_close-Refines_example = entry_close-Refines stored three two 100 stored-Refines closes

abbrev new_timer : FdEntry
new_timer = record { addr = 102; fd = some 7; handler = async_handler }

abbrev four : World (List Frame)
four = record initialised { fds = first_timer ∷ socket_entry ∷ last_timer ∷ new_timer ∷ [] }

adds : fd_entry_add (some 102) (some 7) async_handler three ≡ some (102, four)
unfolding fd_entry_add
adds = refl

entry_add-Refines_example :
    (s' : Store) × (entry_add 4 (some 102) (some 7) async_handler stored ≡ some (102, s'))
    × Refines s' four
entry_add-Refines_example =
    entry_add-Refines stored three four 102 102 (some 7) async_handler 4 stored-Refines refl
      (omega arith) adds
