-- ===== src/Fds.antt =====
-- The list of file descriptors that `wlmio_tick` waits on: `fd_entry_find`, `fd_entry_close` and
-- `fd_entry_add` of src/libwlmio/wlmio.c. The doubly linked list is the list of its entries in
-- order, each with its address; an entry is unlinked by its address.
pub mod Laws
pub mod Find
pub mod Pointers
use libwlmio.Prelude.{
  ℕ, List, [], ◌∷◌, ◌++◌, Option, none, some, Bool, true, false, ◌>>=◌, ◌==◌, if◌then◌else◌,
}
use libwlmio.State.{World, FdEntry, Handler, update}

abbrev pub same_fd : Option ℕ → Option ℕ → Bool
same_fd none none = true
same_fd (some a) (some b) = a == b
same_fd _ _ = false

unfoldable pub fd_entry_find : Option ℕ → List FdEntry → Option FdEntry
fd_entry_find fd [] = none
fd_entry_find fd (c ∷ rest) = if same_fd c.fd fd then some c else fd_entry_find fd rest

-- The entry that a pointer to it finds, as long as it is in the list.
unfoldable pub entry_at : ℕ → List FdEntry → Option FdEntry
entry_at a [] = none
entry_at a (c ∷ rest) = if c.addr == a then some c else entry_at a rest

unfoldable pub unlink : ℕ → List FdEntry → List FdEntry
unlink a [] = []
unlink a (c ∷ rest) = let others = unlink a rest in if c.addr == a then others else c ∷ others

-- close(fd): a timer that is closed does not fire.
abbrev pub close : Option ℕ → (ℕ → Option (ℕ × ℕ)) → ℕ → Option (ℕ × ℕ)
close none armed = armed
close (some fd) armed = update armed fd none

module _ {Ins : Type 0} where
  -- `assert(entry)`, and a pointer to an entry that was freed, are faults.
  unfoldable pub fd_entry_close : Option ℕ → World Ins → Option (World Ins)
  fd_entry_close none w = none
  fd_entry_close (some a) w = do
    entry ← entry_at a w.fds
    some (record w { fds = unlink a w.fds; armed = close entry.fd w.armed })

  -- `memory` is what malloc gives, and is used unchecked. The registration with epoll shows in which
  -- entries `wlmio_tick` may be handed.
  unfoldable pub fd_entry_add : Option ℕ → Option ℕ → Handler → World Ins → Option (ℕ × World Ins)
  fd_entry_add none fd handler w = none
  fd_entry_add (some a) fd handler w =
      some (a, record w { fds = w.fds ++ (record { addr = a; fd = fd; handler = handler } ∷ []) })
