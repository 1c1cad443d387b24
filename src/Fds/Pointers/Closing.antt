-- ===== src/Fds/Pointers/Closing.antt =====
-- An entry that is taken out of a chain.
use libwlmio.Prelude.{
  ℕ, ◌≡◌, ◌≢◌, refl, sym, ◌∙◌, ap, subst, List, [], ◌∷◌, Option, none, some, true, false, All, inl,
  inr, Bool-cases, ◌==◌, ne→==, ==_iff, eq_of_some, ==_refl,
}
use libwlmio.State.{FdEntry, update}
use libwlmio.Fds.{close, same_fd, entry_at, unlink, close}
use libwlmio.Fds.Pointers.{Node, Cells, is_held, edit, new_head, entry_close, Store}
use libwlmio.Fds.Pointers.Chain.{node_of, IsChain, Outside, IsApart, frame, unlink-Outside}
use libwlmio.Fds.Pointers.Neighbours.{
  edit_other, is_held-edit, Misses, Outside-Misses, first-Outside, found_node, away, not_self,
  neighbours_held,
}

module _ (cells : Cells) (a : ℕ) (n : Node) (at : cells a ≡ some n) where
  -- The memory after the entry is gone.
  abbrev pub closed : Cells
  closed =
      update
        (edit n.next (λ m. record m { previous = n.previous })
          (edit n.previous (λ m. record m { next = n.next }) cells))
        a none

  closed_other : (x : ℕ) → x ≢ a → n.previous ≢ some x → n.next ≢ some x → closed x ≡ cells x
  closed_other x other p q = rw (ne→== x a other) (
      edit_other n.next (λ m. record m { previous = n.previous })
        (edit n.previous (λ m. record m { next = n.next }) cells) x q
      ∙ edit_other n.previous (λ m. record m { next = n.next }) cells x p)

  kept :
      (l : List FdEntry)
      → Outside a l
      → Misses n.previous l
      → Misses n.next l
      → All (λ e. closed e.addr ≡ cells e.addr) l
  kept [] out p q = tt
  kept (e ∷ rest) out p q = (closed_other e.addr out.0 p.0 q.0, kept rest out.1 p.1 q.1)

  edited :
      (p : Option ℕ) (x : ℕ) (f : Node → Node) (memory : Cells) (m : Node)
      → p ≡ some x
      → memory x ≡ some m
      → edit p f memory x ≡ some (f m)
  edited p x f memory m e held = rw (e, ==_refl x, held)

  -- The entry is the first of the chain.
  close_first :
      (previous : Option ℕ) (c : FdEntry) (rest : List FdEntry)
      → IsChain cells previous (c ∷ rest)
      → IsApart (c ∷ rest)
      → Misses previous rest
      → c.addr ≡ a
      → n ≡ node_of previous c rest
      → IsChain closed previous rest
  close_first previous c [] h apart misses here node = tt
  close_first previous c (f ∷ more) h apart misses here node =
      let back = ap (λ (m : Node). m.previous) node in
      let on = ap (λ (m : Node). m.next) node in
      let out = subst (λ k. Outside k (f ∷ more)) here apart.0 in
      let p_misses = subst (λ p. Misses p (f ∷ more)) (sym back) misses in
      let unchanged =
        edit_other n.previous (λ m. record m { next = n.next }) cells f.addr p_misses.0 ∙ h.1.0 in
      (
        rw (ne→== f.addr a out.0) (
              edited n.next f.addr (λ m. record m { previous = n.previous })
                (edit n.previous (λ m. record m { next = n.next }) cells)
                (node_of (some c.addr) f more) on unchanged)
            ∙ ap (λ p. some (record (node_of (some c.addr) f more) { previous = p })) back,
        frame cells closed (some f.addr) more
            (kept more out.1 p_misses.1
              (subst (λ p. Misses p more) (sym on) (Outside-Misses f.addr more apart.1.0)))
            h.1.1,
      )

  -- The entry is behind `c`.
  pred_closed :
      (previous : Option ℕ) (c : FdEntry) (rest : List FdEntry) (e : FdEntry)
      → IsChain cells previous (c ∷ rest)
      → IsApart (c ∷ rest)
      → c.addr ≢ a
      → entry_at a rest ≡ some e
      → closed c.addr ≡ some (node_of previous c (unlink a rest))
  unfolding entry_at unlink
  pred_closed previous c [] e h apart other found = absurd (cc)
  pred_closed previous c (g ∷ more) e h apart other found = elim (Bool-cases (g.addr == a)) [
    | inl hit ↦
        let node = found_node cells a n at (some c.addr) g more h.1 hit in
        let back = ap (λ (m : Node). m.previous) node in
        let on = ap (λ (m : Node). m.next) node in
        let out = subst (λ k. Outside k more) ((==_iff g.addr a).0 hit) apart.1.0 in
        rw (hit, ne→== c.addr a other)
          (edit_other n.next (λ m. record m { previous = n.previous })
              (edit n.previous (λ m. record m { next = n.next }) cells) c.addr
              (λ q. first-Outside c.addr more apart.0.1 (sym on ∙ q))
            ∙ edited n.previous c.addr (λ m. record m { next = n.next }) cells
                (node_of previous c (g ∷ more)) back h.0
            ∙ ap (λ q. some (record (node_of previous c (g ∷ more)) { next = q })) on
            ∙ ap (λ l. some (node_of previous c l)) (sym (unlink-Outside a more out)))
    | inr miss ↦
        let (p, q) =
          away cells a n at (some g.addr) more c.addr e h.1.1 (rw miss at found) apart.0.1
            (λ r. apart.0.0 (eq_of_some r)) in
        rw miss (closed_other c.addr other p q ∙ h.0)
  ]

  pub close_chain :
      (previous : Option ℕ) (l : List FdEntry) (e : FdEntry)
      → IsChain cells previous l
      → IsApart l
      → Misses previous l
      → entry_at a l ≡ some e
      → IsChain closed previous (unlink a l)
  unfolding entry_at unlink
  close_chain previous [] e h apart misses found = absurd (cc)
  close_chain previous (c ∷ rest) e h apart misses found = elim (Bool-cases (c.addr == a)) [
    | inl hit ↦
        let here = (==_iff c.addr a).0 hit in
        rw (hit, unlink-Outside a rest (subst (λ k. Outside k rest) here apart.0))
          (close_first previous c rest h apart misses.1 here
            (found_node cells a n at previous c rest h hit))
    | inr miss ↦
        let other : c.addr ≢ a =
          λ q. let shown : true ≡ false = sym ((==_iff c.addr a).1 q) ∙ miss in cc shown in
        let later = rw miss at found in
        rw miss (
          pred_closed previous c rest e h apart other later,
          close_chain (some c.addr) rest e h.1 apart.1 (Outside-Misses c.addr rest apart.0) later,
        )
  ]

pointer_ne : (p : Option ℕ) (a : ℕ) → p ≢ some a → same_fd p (some a) ≡ false
pointer_ne none a h = refl
pointer_ne (some b) a h = ne→== b a (λ e. h (ap some e))

-- A close of an entry of the chain never faults.
pub entry_close-closed :
    (s : Store) (a : ℕ) (n : Node) (at : s.cells a ≡ some n) (l : List FdEntry) (e : FdEntry)
    → IsChain s.cells none l
    → IsApart l
    → entry_at a l ≡ some e
    → entry_close a s
      ≡ some (record {
        cells = closed s.cells a n at;
        head = new_head n.previous n.next s.head;
        armed = close n.fd s.armed;
      })
unfolding entry_close
entry_close-closed s a n at l e h apart found =
    let (p, q) = not_self s.cells a n at none l e h apart found (λ z. cc) in
    let (hp, hq) = neighbours_held s.cells a n at none l e h found refl in
    let before = edit n.previous (λ m. record m { next = n.next }) s.cells in
    let still : is_held n.next before ≡ true =
      is_held-edit n.next n.previous (λ m. record m { next = n.next }) s.cells ∙ hq in
    rw (at, hp, pointer_ne n.previous a p, still, pointer_ne n.next a q)
