-- ===== src/Fds/Find.antt =====
-- What `fd_entry_find` gives for a descriptor after an entry was added or closed.
use libwlmio.Prelude.{
  ℕ, ◌≡◌, ◌≢◌, refl, sym, List, [], ◌∷◌, ◌++◌, Option, none, some, true, false, arith, ◌==◌,
  Bool-cases, inl, inr, eq_of_some, ne→==, ==_refl, subst, ap,
}
use libwlmio.State.{FdEntry}
use libwlmio.Fds.{same_fd, fd_entry_find, unlink}

pub same_fd_eq : (a b : Option ℕ) → same_fd a b ≡ true → a ≡ b
same_fd_eq none none h = refl
same_fd_eq none (some b) h = cc
same_fd_eq (some a) none h = cc
same_fd_eq (some a) (some b) h = ground arith

pub same_fd_refl : (a : Option ℕ) → same_fd a a ≡ true
same_fd_refl none = refl
same_fd_refl (some a) = ==_refl a

pub find_fd :
    (fd : Option ℕ) (l : List FdEntry) (e : FdEntry) → fd_entry_find fd l ≡ some e → e.fd ≡ fd
unfolding fd_entry_find
find_fd fd [] e h = cc
find_fd fd (c ∷ rest) e h = elim (Bool-cases (same_fd c.fd fd)) [
  | inl hit ↦
      let same : c ≡ e = eq_of_some (rw hit at h) in
      subst (λ (x : FdEntry). x.fd ≡ fd) same (same_fd_eq c.fd fd hit)
  | inr miss ↦ find_fd fd rest e (rw miss at h)
]

-- Closing another entry.
pub find-unlink :
    (fd : Option ℕ) (a : ℕ) (l : List FdEntry) (e : FdEntry)
    → fd_entry_find fd l ≡ some e
    → e.addr ≢ a
    → fd_entry_find fd (unlink a l) ≡ some e
unfolding fd_entry_find unlink
find-unlink fd a [] e h other = cc
find-unlink fd a (c ∷ rest) e h other = elim (Bool-cases (same_fd c.fd fd)) [
  | inl hit ↦
      let same : c ≡ e = eq_of_some (rw hit at h) in
      let stays : (c.addr == a) ≡ false =
        ne→== c.addr a (subst (λ (x : FdEntry). x.addr ≢ a) (sym same) other) in
      rw (stays, fd_entry_find, hit) (ap some same)
  | inr miss ↦
      let later = find-unlink fd a rest e (rw miss at h) other in
      elim (Bool-cases (c.addr == a)) [
        | inl gone ↦ rw gone later
        | inr stays ↦ rw (stays, fd_entry_find, miss) later
      ]
]

pub find-append_old :
    (fd : Option ℕ) (l m : List FdEntry) (e : FdEntry)
    → fd_entry_find fd l ≡ some e
    → fd_entry_find fd (l ++ m) ≡ some e
unfolding fd_entry_find
find-append_old fd [] m e h = cc
find-append_old fd (c ∷ rest) m e h = elim (Bool-cases (same_fd c.fd fd)) [
  | inl hit ↦ rw hit (rw hit at h)
  | inr miss ↦ rw miss (find-append_old fd rest m e (rw miss at h))
]

pub find-append_new :
    (fd : Option ℕ) (l m : List FdEntry)
    → fd_entry_find fd l ≡ none
    → fd_entry_find fd (l ++ m) ≡ fd_entry_find fd m
unfolding fd_entry_find
find-append_new fd [] m h = refl
find-append_new fd (c ∷ rest) m h = elim (Bool-cases (same_fd c.fd fd)) [
  | inl hit ↦ let shown : some c ≡ none = rw hit at h in absurd (cc shown)
  | inr miss ↦ rw miss (find-append_new fd rest m (rw miss at h))
]
