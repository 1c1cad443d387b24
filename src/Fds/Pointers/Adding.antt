-- ===== src/Fds/Pointers/Adding.antt =====
-- An entry that is put behind the last of a chain.
use libwlmio.Prelude.{
  ℕ, ◌≡◌, ◌≢◌, refl, sym, ◌∙◌, ap, List, [], ◌∷◌, ◌++◌, Option, none, some, true, inl, inr,
  Bool-cases, ◌==◌, ne→==, eq_of_some, ==_refl,
}
use libwlmio.State.{FdEntry, update}
use libwlmio.Fds.Pointers.{Node, Cells, is_held, edit}
use libwlmio.Fds.Pointers.Chain.{first_addr, node_of, IsChain, Outside, IsApart}
use libwlmio.Fds.Pointers.Walks.{last_addr}
use libwlmio.Fds.Pointers.Neighbours.{edit_other}

-- Memory that is not allocated is no entry of the chain.
pub fresh-Outside :
    (cells : Cells) (a : ℕ) (previous : Option ℕ) (l : List FdEntry)
    → cells a ≡ none
    → IsChain cells previous l
    → Outside a l
fresh-Outside cells a previous [] fresh h = tt
fresh-Outside cells a previous (e ∷ rest) fresh h = (
  (λ same. cc (sym h.0 ∙ ap cells same ∙ fresh)),
  fresh-Outside cells a (some e.addr) rest fresh h.1,
)

pub IsApart-append :
    (l : List FdEntry) (e : FdEntry) → IsApart l → Outside e.addr l → IsApart (l ++ (e ∷ []))
IsApart-append [] e h out = (tt, tt)
IsApart-append (c ∷ rest) e h out = (outside rest h.0, IsApart-append rest e h.1 out.1)
  where
    outside : (l : List FdEntry) → Outside c.addr l → Outside c.addr (l ++ (e ∷ []))
    outside [] k = ((λ q. out.0 (sym q)), tt)
    outside (f ∷ more) k = (k.0, outside more k.1)

pub last_held :
    (cells : Cells) (previous : Option ℕ) (l : List FdEntry)
    → IsChain cells previous l
    → is_held previous cells ≡ true
    → is_held (last_addr previous l) cells ≡ true
last_held cells previous [] h held = held
last_held cells previous (e ∷ rest) h held = last_held cells (some e.addr) rest h.1 (rw h.0)

pub is_held-update :
    (p : Option ℕ) (cells : Cells) (a : ℕ) (n : Node)
    → is_held p cells ≡ true
    → is_held p (update cells a (some n)) ≡ true
is_held-update none cells a n h = refl
is_held-update (some q) cells a n h = elim (Bool-cases (q == a)) [
  | inl hit ↦ rw hit
  | inr miss ↦ rw miss h
]

last_other : (k x : ℕ) (l : List FdEntry) → x ≢ k → Outside k l → last_addr (some x) l ≢ some k
last_other k x [] other out p = other (eq_of_some p)
last_other k x (e ∷ rest) other out p = last_other k e.addr rest out.0 out.1 p

pub new_first :
    (l : List FdEntry) (e : FdEntry) (head : Option ℕ)
    → head ≡ first_addr l
    → elim (last_addr none l) [ none ↦ some e.addr | some x ↦ head ] ≡ first_addr (l ++ (e ∷ []))
new_first [] e head h = refl
new_first (c ∷ rest) e head h = kept c.addr rest ∙ h
  where
    kept :
        (x : ℕ) (l : List FdEntry)
        → elim (last_addr (some x) l) [ none ↦ some e.addr | some y ↦ head ] ≡ head
    kept x [] = refl
    kept x (f ∷ more) = kept f.addr more

module _ (cells : Cells) (entry : FdEntry) (end : Option ℕ) where
  -- The memory with the entry in it, before and after the last entry points to it.
  abbrev pub filled : Cells
  filled =
      update cells entry.addr
        (some (record { fd = entry.fd; handler = entry.handler; next = none; previous = end }))

  abbrev pub joined : Cells
  joined = edit end (λ m. record m { next = some entry.addr }) filled

  joined_other : (x : ℕ) → x ≢ entry.addr → end ≢ some x → joined x ≡ cells x
  joined_other x other p =
      edit_other end (λ m. record m { next = some entry.addr }) filled x p
      ∙ rw (ne→== x entry.addr other)

  joined_last :
      (x : ℕ) (m : Node)
      → x ≢ entry.addr
      → end ≡ some x
      → cells x ≡ some m
      → joined x ≡ some (record m { next = some entry.addr })
  joined_last x m other p held = rw (p, ==_refl x, ne→== x entry.addr other, held)

  joined_new : end ≢ some entry.addr → joined entry.addr ≡ some (node_of end entry [])
  joined_new p =
      edit_other end (λ m. record m { next = some entry.addr }) filled entry.addr p
      ∙ rw (==_refl entry.addr)

  pub joined_chain :
      (previous : Option ℕ) (l : List FdEntry)
      → IsChain cells previous l
      → IsApart l
      → Outside entry.addr l
      → previous ≢ some entry.addr
      → last_addr previous l ≡ end
      → IsChain joined previous (l ++ (entry ∷ []))
  joined_chain previous [] h apart out p e =
      (joined_new (λ q. p (e ∙ q)) ∙ ap (λ q. some (node_of q entry [])) (sym e), tt)
  joined_chain previous (c ∷ []) h apart out p e = (
    joined_last c.addr (node_of previous c []) out.0 (sym e) h.0,
    joined_chain (some c.addr) [] tt tt tt (λ q. out.0 (eq_of_some q)) e,
  )
  joined_chain previous (c ∷ f ∷ rest) h apart out p e = (
    joined_other c.addr out.0 (λ q. last_other c.addr f.addr rest apart.0.0 apart.0.1 (e ∙ q))
        ∙ h.0,
    joined_chain (some c.addr) (f ∷ rest) h.1 apart.1 out.1 (λ q. out.0 (eq_of_some q)) e,
  )
