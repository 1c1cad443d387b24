-- ===== src/Fds/Laws.antt =====
-- What the list of file descriptors gives for an address after an entry was added or closed.
use libwlmio.Prelude.{ℕ, ◌≡◌, refl, List, [], ◌∷◌, ◌++◌, none, some, arith, ◌==◌, if◌then◌else◌}
use libwlmio.State.{FdEntry}
use libwlmio.Fds.{entry_at, unlink}

pub entry_at-unlink :
    (a b : ℕ) (l : List FdEntry) → entry_at b (unlink a l) ≡ (if a == b then none else entry_at b l)
unfolding entry_at unlink
entry_at-unlink a b [] = ground arith
entry_at-unlink a b (c ∷ rest) = ground (arith, entry_at-unlink a b rest)

pub entry_at-append_old :
    (a : ℕ) (l m : List FdEntry) (e : FdEntry)
    → entry_at a l ≡ some e
    → entry_at a (l ++ m) ≡ some e
unfolding entry_at
entry_at-append_old a [] m e h = cc
entry_at-append_old a (c ∷ rest) m e h = ground (arith, entry_at-append_old a rest m e)

pub entry_at-append_new :
    (a : ℕ) (l m : List FdEntry) → entry_at a l ≡ none → entry_at a (l ++ m) ≡ entry_at a m
unfolding entry_at
entry_at-append_new a [] m h = refl
entry_at-append_new a (c ∷ rest) m h = ground (arith, entry_at-append_new a rest m)

unlink_absent : (a : ℕ) (l : List FdEntry) → entry_at a l ≡ none → unlink a l ≡ l
unfolding entry_at unlink
unlink_absent a [] h = refl
unlink_absent a (c ∷ rest) h = ground (arith, unlink_absent a rest)

-- An entry that was added later stays.
pub unlink-append :
    (a : ℕ) (l m : List FdEntry) → entry_at a m ≡ none → unlink a (l ++ m) ≡ unlink a l ++ m
unfolding unlink
unlink-append a [] m h = unlink_absent a m h
unlink-append a (c ∷ rest) m h = ground (arith, unlink-append a rest m h)
