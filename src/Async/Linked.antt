-- ===== src/Async/Linked.antt =====
-- The invariant between the waiting tasks and the list of file descriptors.
use libwlmio.Prelude.{
  ℕ, ◌≡◌, ◌≢◌, sym, ◌∙◌, inl, inr, List, [], ◌∷◌, Option, some, ◌==◌, All, Bool-cases, ne→==, subst,
  eq_of_some, ==_refl,
}
use libwlmio.State.{World, FdEntry, Task, async_handler}
use libwlmio.Fds.{entry_at, unlink}
use libwlmio.Fds.Laws.{entry_at-unlink}
use libwlmio.Async.{task_with_id, task_at, without}

-- No two tasks have the same number.
abbrev pub Distinct : (Task → ℕ) → List Task → Type 0
Distinct key [] = Unit
Distinct key (t ∷ rest) = All (λ s. key s ≢ key t) rest × Distinct key rest

-- The timer of a task is in the list, with the handler that ends the task.
abbrev pub Watched : List FdEntry → Task → Type 0
Watched fds t = (e : FdEntry) × (entry_at t.timer fds ≡ some e) × (e.handler ≡ async_handler)

pub record IsLinked {Ins : Type 0} (w : World Ins) : Type 0 where
  pub addresses : Distinct (λ t. t.addr) w.tasks
  pub timers_apart : Distinct (λ t. t.timer) w.tasks
  pub watched : All (Watched w.fds) w.tasks

module _ (P : Task → Type 0) where
  pub All-at : (a : ℕ) (l : List Task) (c : Task) → All P l → task_at a l ≡ some c → P c
  unfolding task_at
  All-at a [] c h e = absurd (cc)
  All-at a (t ∷ rest) c h e = elim (Bool-cases (t.addr == a)) [
    | inl hit ↦ subst P (eq_of_some (rw hit at e)) h.0
    | inr miss ↦ All-at a rest c h.1 (rw miss at e)
  ]

  pub All-with_id : (id : ℕ) (l : List Task) (c : Task) → All P l → task_with_id id l ≡ some c → P c
  unfolding task_with_id
  All-with_id id [] c h e = absurd (cc)
  All-with_id id (t ∷ rest) c h e = elim (Bool-cases (t.id == id)) [
    | inl hit ↦ subst P (eq_of_some (rw hit at e)) h.0
    | inr miss ↦ All-with_id id rest c h.1 (rw miss at e)
  ]

  pub All-without : (a : ℕ) (l : List Task) → All P l → All P (without a l)
  unfolding without
  All-without a [] h = tt
  All-without a (t ∷ rest) h = elim (Bool-cases (t.addr == a)) [
    | inl hit ↦ rw hit (All-without a rest h.1)
    | inr miss ↦ rw miss (h.0, All-without a rest h.1)
  ]

pub Distinct-without :
    (key : Task → ℕ) (a : ℕ) (l : List Task) → Distinct key l → Distinct key (without a l)
unfolding without
Distinct-without key a [] h = tt
Distinct-without key a (t ∷ rest) h = elim (Bool-cases (t.addr == a)) [
  | inl hit ↦ rw hit (Distinct-without key a rest h.1)
  | inr miss ↦ rw miss (All-without _ a rest h.0, Distinct-without key a rest h.1)
]

-- The first task with an identifier is the one at its address.
pub task_at-with_id :
    (id : ℕ) (l : List Task) (c : Task)
    → Distinct (λ t. t.addr) l
    → task_with_id id l ≡ some c
    → task_at c.addr l ≡ some c
unfolding task_with_id task_at
task_at-with_id id [] c h e = cc
task_at-with_id id (t ∷ rest) c h e = elim (Bool-cases (t.id == id)) [
  | inl hit ↦ let same : t ≡ c = eq_of_some (rw hit at e) in rw (← same, ==_refl t.addr)
  | inr miss ↦
      let later : task_with_id id rest ≡ some c = rw miss at e in
      let other : c.addr ≢ t.addr = All-with_id _ id rest c h.0 later in
      rw (ne→== t.addr c.addr (λ p. other (sym p))) (task_at-with_id id rest c h.1 later)
]

-- Every other task has another timer than the one at an address.
pub others_apart :
    (a : ℕ) (l : List Task) (c : Task)
    → Distinct (λ t. t.timer) l
    → task_at a l ≡ some c
    → All (λ t. t.timer ≢ c.timer) (without a l)
unfolding task_at without
others_apart a [] c h e = tt
others_apart a (t ∷ rest) c h e = elim (Bool-cases (t.addr == a)) [
  | inl hit ↦
      let same : t ≡ c = eq_of_some (rw hit at e) in
      rw hit
        (All-without _ a rest (subst (λ (c : Task). All (λ s. s.timer ≢ c.timer) rest) same h.0))
  | inr miss ↦
      let later : task_at a rest ≡ some c = rw miss at e in
      let other : c.timer ≢ t.timer = All-at _ a rest c h.0 later in
      rw miss ((λ p. other (sym p)), others_apart a rest c h.1 later)
]

pub Watched-unlink :
    (k : ℕ) (fds : List FdEntry) (l : List Task)
    → All (λ t. t.timer ≢ k) l
    → All (Watched fds) l
    → All (Watched (unlink k fds)) l
Watched-unlink k fds [] h w = tt
Watched-unlink k fds (t ∷ rest) h ((e, at, handles), more) = (
  (e, entry_at-unlink k t.timer fds ∙ rw (ne→== k t.timer (λ p. h.0 (sym p))) at, handles),
  Watched-unlink k fds rest h.1 more,
)

module _ {Ins : Type 0} where
  -- Removing a task and its timer.
  unfoldable pub unlinked : World Ins → Task → (ℕ → Option (ℕ × ℕ)) → World Ins
  unlinked w c armed = record w {
    tasks = without c.addr w.tasks;
    fds = unlink c.timer w.fds;
    armed = armed;
  }

  pub unlinked-IsLinked :
      (w : World Ins) (c : Task) (armed : ℕ → Option (ℕ × ℕ))
      → IsLinked w
      → task_at c.addr w.tasks ≡ some c
      → IsLinked (unlinked w c armed)
  unfolding unlinked
  unlinked-IsLinked w c armed h e = record {
    addresses = Distinct-without _ c.addr w.tasks h.addresses;
    timers_apart = Distinct-without _ c.addr w.tasks h.timers_apart;
    watched =
        Watched-unlink c.timer w.fds _ (others_apart c.addr w.tasks c h.timers_apart e)
          (All-without _ c.addr w.tasks h.watched);
  }
