-- ===== src/Fds/Pointers/Chain.antt =====
-- A list of entries as a chain of pointers.
use libwlmio.Prelude.{
  ℕ, ◌≡◌, ◌≢◌, refl, ◌∙◌, ap, List, [], ◌∷◌, Option, none, some, All, inl, inr, Bool-cases, ◌==◌,
  ne→==, arith,
}
use libwlmio.State.{FdEntry}
use libwlmio.Fds.{entry_at, unlink}
use libwlmio.Fds.Pointers.{Node, Cells, Store}

abbrev pub first_addr : List FdEntry → Option ℕ
first_addr [] = none
first_addr (e ∷ rest) = some e.addr

-- The entry in memory, behind `previous` and before `rest`.
abbrev pub node_of : Option ℕ → FdEntry → List FdEntry → Node
node_of previous e rest = record {
  fd = e.fd;
  handler = e.handler;
  next = first_addr rest;
  previous = previous;
}

abbrev pub IsChain : Cells → Option ℕ → List FdEntry → Type 0
IsChain cells previous [] = Unit
IsChain cells previous (e ∷ rest) =
    (cells e.addr ≡ some (node_of previous e rest)) × IsChain cells (some e.addr) rest

abbrev pub Outside : ℕ → List FdEntry → Type 0
Outside a l = All (λ e. e.addr ≢ a) l

abbrev pub IsApart : List FdEntry → Type 0
IsApart [] = Unit
IsApart (e ∷ rest) = Outside e.addr rest × IsApart rest

-- The memory holds the list.
pub record Represents (s : Store) (l : List FdEntry) : Type 0 where
  pub head : s.head ≡ first_addr l
  pub chain : IsChain s.cells none l
  pub apart : IsApart l

-- A change elsewhere leaves a chain as it is.
pub frame :
    (cells cells' : Cells) (previous : Option ℕ) (l : List FdEntry)
    → All (λ e. cells' e.addr ≡ cells e.addr) l
    → IsChain cells previous l
    → IsChain cells' previous l
frame cells cells' previous [] same h = tt
frame cells cells' previous (e ∷ rest) same h =
    (same.0 ∙ h.0, frame cells cells' (some e.addr) rest same.1 h.1)

-- What stands at an address of the list.
pub entry_addr : (a : ℕ) (l : List FdEntry) (e : FdEntry) → entry_at a l ≡ some e → e.addr ≡ a
unfolding entry_at
entry_addr a [] e h = cc
entry_addr a (c ∷ rest) e h = ground (arith, entry_addr a rest e)

pub entry-Outside : (a : ℕ) (l : List FdEntry) → Outside a l → entry_at a l ≡ none
unfolding entry_at
entry-Outside a [] h = refl
entry-Outside a (c ∷ rest) h = rw (ne→== c.addr a h.0) (entry-Outside a rest h.1)

pub unlink-Outside : (a : ℕ) (l : List FdEntry) → Outside a l → unlink a l ≡ l
unfolding unlink
unlink-Outside a [] h = refl
unlink-Outside a (c ∷ rest) h =
    rw (ne→== c.addr a h.0) (ap (λ t. c ∷ t) (unlink-Outside a rest h.1))

Outside-unlink : (k a : ℕ) (l : List FdEntry) → Outside k l → Outside k (unlink a l)
unfolding unlink
Outside-unlink k a [] h = tt
Outside-unlink k a (c ∷ rest) h = elim (Bool-cases (c.addr == a)) [
  | inl hit ↦ rw hit (Outside-unlink k a rest h.1)
  | inr miss ↦ rw miss (h.0, Outside-unlink k a rest h.1)
]

pub IsApart-unlink : (a : ℕ) (l : List FdEntry) → IsApart l → IsApart (unlink a l)
unfolding unlink
IsApart-unlink a [] h = tt
IsApart-unlink a (c ∷ rest) h = elim (Bool-cases (c.addr == a)) [
  | inl hit ↦ rw hit (IsApart-unlink a rest h.1)
  | inr miss ↦ rw miss (Outside-unlink c.addr a rest h.0, IsApart-unlink a rest h.1)
]
