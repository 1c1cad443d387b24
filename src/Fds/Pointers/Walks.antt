-- ===== src/Fds/Pointers/Walks.antt =====
-- The two loops over a chain.
use libwlmio.Prelude.{
  ℕ, zero, suc, ◌<◌, ◌≡◌, refl, List, [], ◌∷◌, Option, some, inl, inr, Bool-cases, arith, length,
}
use libwlmio.State.{FdEntry}
use libwlmio.Fds.{same_fd, fd_entry_find}
use libwlmio.Fds.Pointers.{Cells, with, find_from, end_from}
use libwlmio.Fds.Pointers.Chain.{IsChain, first_addr}

-- A round for each entry and one more.
pub find_from-chain :
    (rounds : ℕ) (cells : Cells) (fd previous : Option ℕ) (l : List FdEntry)
    → IsChain cells previous l
    → length l < rounds
    → find_from rounds cells fd (first_addr l)
      ≡ some (with (λ (e : FdEntry). e.addr) (fd_entry_find fd l))
unfolding find_from fd_entry_find
find_from-chain zero cells fd previous l h enough = absurd (omega arith)
find_from-chain (suc rounds) cells fd previous [] h enough = refl
find_from-chain (suc rounds) cells fd previous (e ∷ rest) h enough =
    rw h.0 (elim (Bool-cases (same_fd e.fd fd)) [
      | inl hit ↦ rw hit
      | inr miss ↦ rw miss (find_from-chain rounds cells fd (some e.addr) rest h.1 (omega arith))
    ])

-- The last entry, or `end` if there is none.
abbrev pub last_addr : Option ℕ → List FdEntry → Option ℕ
last_addr end [] = end
last_addr end (e ∷ rest) = last_addr (some e.addr) rest

pub end_from-chain :
    (rounds : ℕ) (cells : Cells) (end previous : Option ℕ) (l : List FdEntry)
    → IsChain cells previous l
    → length l < rounds
    → end_from rounds cells end (first_addr l) ≡ some (last_addr end l)
unfolding end_from
end_from-chain zero cells end previous l h enough = absurd (omega arith)
end_from-chain (suc rounds) cells end previous [] h enough = refl
end_from-chain (suc rounds) cells end previous (e ∷ []) h enough =
    rw h.0 (end_from-chain rounds cells (some e.addr) (some e.addr) [] tt (omega arith))
end_from-chain (suc rounds) cells end previous (e ∷ f ∷ rest) h enough =
    rw h.0 (end_from-chain rounds cells end (some e.addr) (f ∷ rest) h.1 (omega arith))
