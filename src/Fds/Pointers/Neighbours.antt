-- ===== src/Fds/Pointers/Neighbours.antt =====
-- The neighbours of an entry in a chain.
use libwlmio.Prelude.{
  ℕ, ◌≡◌, ◌≢◌, refl, sym, ◌∙◌, ap, subst, List, [], ◌∷◌, Option, none, some, true, false, All, inl,
  inr, Bool-cases, ◌==◌, ne→==, ==_iff, eq_of_some,
}
use libwlmio.State.{FdEntry}
use libwlmio.Fds.{same_fd, entry_at}
use libwlmio.Fds.Pointers.{Node, Cells, is_held, is_some, edit, with, new_head}
use libwlmio.Fds.Pointers.Chain.{first_addr, node_of, IsChain, Outside, IsApart}

pub edit_other :
    (p : Option ℕ) (f : Node → Node) (cells : Cells) (x : ℕ)
    → p ≢ some x
    → edit p f cells x ≡ cells x
edit_other none f cells x h = refl
edit_other (some q) f cells x h = rw (ne→== q x (λ e. h (ap some e)))

pub is_held-edit :
    (q p : Option ℕ) (f : Node → Node) (cells : Cells)
    → is_held q (edit p f cells) ≡ is_held q cells
is_held-edit none p f cells = refl
is_held-edit (some q) p f cells = elim (Bool-cases (same_fd p (some q))) [
  | inl hit ↦ rw hit (still (cells q))
  | inr miss ↦ rw miss
]
  where
    still : (o : Option Node) → is_some (with f o) ≡ is_some o
    still none = refl
    still (some n) = refl

-- No entry of the list is the one that a pointer leads to.
abbrev pub Misses : Option ℕ → List FdEntry → Type 0
Misses p l = All (λ e. p ≢ some e.addr) l

pub Outside-Misses : (a : ℕ) (l : List FdEntry) → Outside a l → Misses (some a) l
Outside-Misses a [] h = tt
Outside-Misses a (e ∷ rest) h = ((λ p. h.0 (sym (eq_of_some p))), Outside-Misses a rest h.1)

pub first-Outside : (a : ℕ) (l : List FdEntry) → Outside a l → first_addr l ≢ some a
first-Outside a [] h p = cc
first-Outside a (e ∷ rest) h p = h.0 (eq_of_some p)

first_held :
    (cells : Cells) (previous : Option ℕ) (l : List FdEntry)
    → IsChain cells previous l
    → is_held (first_addr l) cells ≡ true
first_held cells previous [] h = refl
first_held cells previous (e ∷ rest) h = rw h.0

-- What is known of the entry at `a`, whose node is `n`.
module _ (cells : Cells) (a : ℕ) (n : Node) (at : cells a ≡ some n) where
  pub found_node :
      (previous : Option ℕ) (c : FdEntry) (rest : List FdEntry)
      → IsChain cells previous (c ∷ rest)
      → (c.addr == a) ≡ true
      → n ≡ node_of previous c rest
  found_node previous c rest h hit =
      eq_of_some (sym at ∙ ap cells (sym ((==_iff c.addr a).0 hit)) ∙ h.0)

  -- Neither pointer leads to an address that is not in the chain.
  pub away :
      (previous : Option ℕ) (l : List FdEntry) (k : ℕ) (e : FdEntry)
      → IsChain cells previous l
      → entry_at a l ≡ some e
      → Outside k l
      → previous ≢ some k
      → (n.previous ≢ some k) × (n.next ≢ some k)
  unfolding entry_at
  away previous [] k e h found out p = absurd (cc)
  away previous (c ∷ rest) k e h found out p = elim (Bool-cases (c.addr == a)) [
    | inl hit ↦ rw (found_node previous c rest h hit) (p, first-Outside k rest out.1)
    | inr miss ↦
        away (some c.addr) rest k e h.1 (rw miss at found) out.1 (λ q. out.0 (eq_of_some q))
  ]

  -- Neither pointer leads back to `a`.
  pub not_self :
      (previous : Option ℕ) (l : List FdEntry) (e : FdEntry)
      → IsChain cells previous l
      → IsApart l
      → entry_at a l ≡ some e
      → previous ≢ some a
      → (n.previous ≢ some a) × (n.next ≢ some a)
  unfolding entry_at
  not_self previous [] e h apart found p = absurd (cc)
  not_self previous (c ∷ rest) e h apart found p = elim (Bool-cases (c.addr == a)) [
    | inl hit ↦
        let here = (==_iff c.addr a).0 hit in
        rw (found_node previous c rest h hit)
          (p, first-Outside a rest (subst (λ k. Outside k rest) here apart.0))
    | inr miss ↦
        let other : c.addr ≢ a =
          λ q. let shown : true ≡ false = sym ((==_iff c.addr a).1 q) ∙ miss in cc shown in
        not_self (some c.addr) rest e h.1 apart.1 (rw miss at found) (λ q. other (eq_of_some q))
  ]

  -- Both pointers may be followed.
  pub neighbours_held :
      (previous : Option ℕ) (l : List FdEntry) (e : FdEntry)
      → IsChain cells previous l
      → entry_at a l ≡ some e
      → is_held previous cells ≡ true
      → (is_held n.previous cells ≡ true) × (is_held n.next cells ≡ true)
  unfolding entry_at
  neighbours_held previous [] e h found held = absurd (cc)
  neighbours_held previous (c ∷ rest) e h found held = elim (Bool-cases (c.addr == a)) [
    | inl hit ↦
        rw (found_node previous c rest h hit) (held, first_held cells (some c.addr) rest h.1)
    | inr miss ↦ neighbours_held (some c.addr) rest e h.1 (rw miss at found) (rw h.0)
  ]

  -- Behind another entry, the first entry stays the first.
  pub head_kept :
      (k : ℕ) (l : List FdEntry) (e : FdEntry) (head : Option ℕ)
      → IsChain cells (some k) l
      → entry_at a l ≡ some e
      → new_head n.previous n.next head ≡ head
  unfolding entry_at
  head_kept k [] e head h found = absurd (cc)
  head_kept k (c ∷ rest) e head h found = elim (Bool-cases (c.addr == a)) [
    | inl hit ↦ rw (found_node (some k) c rest h hit)
    | inr miss ↦ head_kept c.addr rest e head h.1 (rw miss at found)
  ]
