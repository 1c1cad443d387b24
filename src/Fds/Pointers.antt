-- ===== src/Fds/Pointers.antt =====
-- The doubly linked list of `struct fd_entry` in src/libwlmio/wlmio.c, as its pointers stand in
-- memory: `fd_entry_find`, `fd_entry_close` and `fd_entry_add` once more.
pub mod Chain
pub mod Walks
pub mod Neighbours
pub mod Closing
pub mod Adding
pub mod Refinement
use libwlmio.Prelude.{
  ℕ, zero, suc, Option, none, some, ◌>>=◌, ◌>>◌, check, Bool, true, false, if◌then◌else◌,
}
use libwlmio.State.{Handler, update}
use libwlmio.Fds.{same_fd, close}

-- struct fd_entry; a pointer is `none` for NULL.
pub record Node : Type 0 where
  pub fd : Option ℕ
  pub handler : Handler
  pub next : Option ℕ
  pub previous : Option ℕ

abbrev pub Cells : Type 0
Cells = ℕ → Option Node

-- The allocated entries, `fd_entry_head`, and the timers that are set.
pub record Store : Type 0 where
  pub cells : Cells
  pub head : Option ℕ
  pub armed : ℕ → Option (ℕ × ℕ)

abbrev pub is_some {ℓ} : {A : Type ℓ} → Option A → Bool
is_some none = false
is_some (some a) = true

-- Whether a pointer may be followed, NULL counting as one that is not.
abbrev pub is_held : Option ℕ → Cells → Bool
is_held none cells = true
is_held (some p) cells = is_some (cells p)

abbrev pub with {ℓ κ} : {A : Type ℓ} {B : Type κ} → (A → B) → Option A → Option B
with f none = none
with f (some a) = some (f a)

-- `p->field = …`, and nothing for NULL.
abbrev pub edit : Option ℕ → (Node → Node) → Cells → Cells
edit p f cells x = if same_fd p (some x) then with f (cells x) else cells x

-- The loop of `fd_entry_find` from `c` on. Out of rounds, or at an entry that was freed, it gives
-- none; else the entry where it ends, or NULL.
pub find_from : ℕ → Cells → Option ℕ → Option ℕ → Option (Option ℕ)
find_from zero cells fd c = none
find_from (suc rounds) cells fd none = some none
find_from (suc rounds) cells fd (some a) = elim (cells a) [
  | none ↦ none
  | some n ↦ elim (same_fd n.fd fd) [
    | true ↦ some (some a)
    | false ↦ find_from rounds cells fd n.next
  ]
]

unfoldable pub entry_find : ℕ → Option ℕ → Store → Option (Option ℕ)
unfolding find_from
entry_find rounds fd s = find_from rounds s.cells fd s.head

-- `fd_entry_head`, after the entry with these two pointers was taken out.
abbrev pub new_head : Option ℕ → Option ℕ → Option ℕ → Option ℕ
new_head none next head = next
new_head (some p) next head = head

unfoldable pub entry_close : ℕ → Store → Option Store
entry_close a s = do
  n ← s.cells a
  check (is_held n.previous s.cells)
  let cells = edit n.previous (λ m. record m { next = n.next }) s.cells
  n' ← cells a
  check (is_held n'.next cells)
  let cells' = edit n'.next (λ m. record m { previous = n'.previous }) cells
  n'' ← cells' a
  some (record {
    cells = update cells' a none;
    head = new_head n.previous n.next s.head;
    armed = close n''.fd s.armed;
  })

-- The loop of `fd_entry_add`: the last entry, from `c` on.
pub end_from : ℕ → Cells → Option ℕ → Option ℕ → Option (Option ℕ)
end_from zero cells end c = none
end_from (suc rounds) cells end none = some end
end_from (suc rounds) cells end (some a) = elim (cells a) [
  | none ↦ none
  | some n ↦ elim (is_some n.next) [
    | true ↦ end_from rounds cells end n.next
    | false ↦ end_from rounds cells (some a) n.next
  ]
]

unfoldable pub entry_add : ℕ → Option ℕ → Option ℕ → Handler → Store → Option (ℕ × Store)
unfolding end_from
entry_add rounds memory fd handler s = do
  end ← end_from rounds s.cells none s.head
  a ← memory
  let cells =
      update s.cells a (some (record { fd = fd; handler = handler; next = none; previous = end }))
  check (is_held end cells)
  some (
    a,
    record s {
      cells = edit end (λ m. record m { next = some a }) cells;
      head = elim end [ none ↦ some a | some e ↦ s.head ];
    },
  )
