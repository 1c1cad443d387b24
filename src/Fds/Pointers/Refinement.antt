-- ===== src/Fds/Pointers/Refinement.antt =====
-- The operations on pointers against those on the list.
use libwlmio.Prelude.{
  ◌++◌, refl, ℕ, ◌<◌, ◌≡◌, sym, ◌∙◌, ap, subst, List, [], ◌∷◌, Option, none, some, length, ==_refl,
  ◌==◌, eq_of_some, Bool-cases, Option-cases, inl, inr, ==_iff,
}
use libwlmio.State.{World, FdEntry}
use libwlmio.Fds.{
  same_fd, close, fd_entry_find, entry_at, unlink, fd_entry_close, fd_entry_add, Handler, true,
}
use libwlmio.Fds.Pointers.{
  Node, Cells, Store, is_held, with, entry_find, entry_close, entry_add, new_head, end_from,
}
use libwlmio.Fds.Pointers.Chain.{
  first_addr, node_of, IsChain, Outside, IsApart, Represents, unlink-Outside, IsApart-unlink,
}
use libwlmio.Fds.Pointers.Walks.{find_from-chain, last_addr, end_from-chain}
use libwlmio.Fds.Pointers.Neighbours.{Misses, head_kept, found_node}
use libwlmio.Fds.Pointers.Closing.{closed, close_chain, entry_close-closed}
use libwlmio.Fds.Pointers.Adding.{
  fresh-Outside, IsApart-append, last_held, is_held-update, new_first, filled, joined, joined_chain,
}

-- The memory holds the list of the world, and its timers.
pub record Refines {Ins : Type 0} (s : Store) (w : World Ins) : Type 0 where
  pub list : Represents s w.fds
  pub timers : s.armed ≡ w.armed

-- The node of an entry of the list.
held_node :
    (cells : Cells) (a : ℕ) (previous : Option ℕ) (l : List FdEntry) (e : FdEntry)
    → IsChain cells previous l
    → entry_at a l ≡ some e
    → (n : Node) × (cells a ≡ some n) × (n.fd ≡ e.fd)
unfolding entry_at
held_node cells a previous [] e h found = absurd (cc)
held_node cells a previous (c ∷ rest) e h found = elim (Bool-cases (c.addr == a)) [
  | inl hit ↦
      let same : c ≡ e = eq_of_some (rw hit at found) in
      (
        node_of previous c rest,
        ap cells (sym ((==_iff c.addr a).0 hit)) ∙ h.0,
        ap (λ (x : FdEntry). x.fd) same,
      )
  | inr miss ↦ held_node cells a (some c.addr) rest e h.1 (rw miss at found)
]

none-Misses : (l : List FdEntry) → Misses none l
none-Misses [] = tt
none-Misses (e ∷ rest) = ((λ p. cc), none-Misses rest)

-- The first entry after one was taken out.
head_closed :
    (cells : Cells) (a : ℕ) (n : Node) (at : cells a ≡ some n) (l : List FdEntry) (e : FdEntry)
    → IsChain cells none l
    → IsApart l
    → entry_at a l ≡ some e
    → new_head n.previous n.next (first_addr l) ≡ first_addr (unlink a l)
unfolding entry_at unlink
head_closed cells a n at [] e h apart found = absurd (cc)
head_closed cells a n at (c ∷ rest) e h apart found = elim (Bool-cases (c.addr == a)) [
  | inl hit ↦ rw (
    found_node cells a n at none c rest h hit,
    hit,
    unlink-Outside a rest (subst (λ k. Outside k rest) ((==_iff c.addr a).0 hit) apart.0),
  )
  | inr miss ↦ rw miss (head_kept cells a n at c.addr rest e (some c.addr) h.1 (rw miss at found))
]

module _ {Ins : Type 0} where
  -- Where the pointers in memory are those of the list of file descriptors, the search along the
  -- pointers follows none to freed memory and ends, within a round for each entry and one more, at
  -- the entry that the search through the list finds, or at NULL if it finds none.
  pub entry_find-Refines :
      (s : Store) (w : World Ins) (fd : Option ℕ) (rounds : ℕ)
      → Refines s w
      → length w.fds < rounds
      → entry_find rounds fd s ≡ some (with (λ (e : FdEntry). e.addr) (fd_entry_find fd w.fds))
  unfolding entry_find
  entry_find-Refines s w fd rounds h enough =
      rw h.list.head (find_from-chain rounds s.cells fd none w.fds h.list.chain enough)

  -- Where the pointers in memory are those of the list of file descriptors, and the list closes the
  -- entry at an address, taking that entry out by its pointers does not fault, leaves in memory
  -- exactly the pointers and the timers of the list that results, and frees the entry.
  pub entry_close-Refines :
      (s : Store) (w w' : World Ins) (a : ℕ)
      → Refines s w
      → fd_entry_close (some a) w ≡ some w'
      → (s' : Store) × (entry_close a s ≡ some s') × Refines s' w' × (s'.cells a ≡ none)
  unfolding fd_entry_close
  entry_close-Refines s w w' a h closes = elim (Option-cases (entry_at a w.fds)) [
    | inl lost ↦ absurd (cc (rw lost at closes))
    | inr (e, found) ↦
        let (n, at, same_fd) = held_node s.cells a none w.fds e h.list.chain found in
        let after : record w { fds = unlink a w.fds; armed = close e.fd w.armed } ≡ w' =
          eq_of_some (rw found at closes) in
        let s' : Store = record {
          cells = closed s.cells a n at;
          head = new_head n.previous n.next s.head;
          armed = close n.fd s.armed;
        } in
        (
          s',
          entry_close-closed s a n at w.fds e h.list.chain h.list.apart found,
          subst (λ (v : World Ins). Refines s' v) after
              (record {
                list = record {
                  head =
                      ap (new_head n.previous n.next) h.list.head
                      ∙ head_closed s.cells a n at w.fds e h.list.chain h.list.apart found;
                  chain =
                      close_chain s.cells a n at none w.fds e h.list.chain h.list.apart
                        (none-Misses w.fds) found;
                  apart = IsApart-unlink a w.fds h.list.apart;
                };
                timers =
                    ap (λ (fd : Option ℕ). close fd s.armed) same_fd ∙ ap (close e.fd) h.timers;
              }),
          rw (==_refl a),
        )
  ]

  -- Where the pointers in memory are those of the list of file descriptors, and malloc gives memory
  -- that holds no entry, the walk to the last entry ends within a round for each entry and one
  -- more, and the memory then holds exactly the pointers of the list with the new entry at its end.
  pub entry_add-Refines :
      (s : Store) (w w' : World Ins) (a made : ℕ) (fd : Option ℕ) (handler : Handler) (rounds : ℕ)
      → Refines s w
      → s.cells a ≡ none
      → length w.fds < rounds
      → fd_entry_add (some a) fd handler w ≡ some (made, w')
      → (s' : Store) × (entry_add rounds (some a) fd handler s ≡ some (made, s')) × Refines s' w'
  unfolding fd_entry_add entry_add
  entry_add-Refines s w w' a made fd handler rounds h fresh enough adds =
      let entry : FdEntry = record { addr = a; fd = fd; handler = handler } in
      let end = last_addr none w.fds in
      let out = fresh-Outside s.cells a none w.fds fresh h.list.chain in
      let walk : end_from rounds s.cells none s.head ≡ some end =
        rw h.list.head (end_from-chain rounds s.cells none none w.fds h.list.chain enough) in
      let held : is_held end (filled s.cells entry end) ≡ true =
        is_held-update end s.cells a (node_of end entry [])
          (last_held s.cells none w.fds h.list.chain refl) in
      let s' : Store = record s {
        cells = joined s.cells entry end;
        head = elim end [ none ↦ some a | some e ↦ s.head ];
      } in
      let done : Refines s' (record w { fds = w.fds ++ (entry ∷ []) }) = record {
        list = record {
          head = new_first w.fds entry s.head h.list.head;
          chain =
              joined_chain s.cells entry end none w.fds h.list.chain h.list.apart out (λ q. cc)
                refl;
          apart = IsApart-append w.fds entry h.list.apart out;
        };
        timers = h.timers;
      } in
      let same = eq_of_some adds in
      (
        s',
        rw (walk, held) (ap (λ (r : ℕ × World Ins). some (r.0, s')) same),
        subst (λ (r : ℕ × World Ins). Refines s' r.1) same done,
      )
