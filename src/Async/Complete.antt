-- ===== src/Async/Complete.antt =====
-- The lists after a completion or a timeout.
use libwlmio.Prelude.{
  ℕ, ◌≡◌, ◌≢◌, refl, sym, ◌∙◌, List, [], ◌∷◌, ◌++◌, Option, none, some, ◌>>=◌, arith, Bool-cases,
  inl, inr, ◌==◌, ℤ, eq_of_some, neg_etimedout, ==_refl, ne→==,
}
use libwlmio.State.{World, FdEntry, Task}
use libwlmio.Fds.Laws.{entry_at-append_old}
use libwlmio.Fds.{entry_at, close, fd_entry_close}
use libwlmio.Async.{
  Call, task_with_id, task_at, task_with_timer, without, remove_from, async_remove_entry,
  async_complete, async_timeout,
}
use libwlmio.Async.Linked.{IsLinked, Distinct, All-at, task_at-with_id, unlinked, unlinked-IsLinked}

-- What a function that is called back may do to the lists: start further requests, which stand at
-- their ends.
pub record Appends {Ins : Type 0} (w w' : World Ins) : Type 0 where
  pub tasks : List Task
  pub fds : List FdEntry
  pub tasks_after : w'.tasks ≡ w.tasks ++ tasks
  pub fds_after : w'.fds ≡ w.fds ++ fds
  pub linked : IsLinked w'

pub task_at-append :
    (a : ℕ) (l m : List Task) (c : Task) → task_at a l ≡ some c → task_at a (l ++ m) ≡ some c
unfolding task_at
task_at-append a [] m c h = cc
task_at-append a (t ∷ rest) m c h = ground (arith, task_at-append a rest m c)

task_at-without : (a : ℕ) (l : List Task) → task_at a (without a l) ≡ none
unfolding task_at without
task_at-without a [] = refl
task_at-without a (t ∷ rest) = ground (arith, task_at-without a rest)

-- The task at an address is the one with its timer.
task_with_timer-at :
    (a : ℕ) (l : List Task) (c : Task)
    → Distinct (λ t. t.timer) l
    → task_at a l ≡ some c
    → task_with_timer c.timer l ≡ some c
unfolding task_with_timer task_at
task_with_timer-at a [] c h e = cc
task_with_timer-at a (t ∷ rest) c h e = elim (Bool-cases (t.addr == a)) [
  | inl hit ↦ let same : t ≡ c = eq_of_some (rw hit at e) in rw (← same, ==_refl t.timer)
  | inr miss ↦
      let later : task_at a rest ≡ some c = rw miss at e in
      let other : c.timer ≢ t.timer = All-at _ a rest c h.0 later in
      rw (ne→== t.timer c.timer (λ p. other (sym p))) (task_with_timer-at a rest c h.1 later)
]

module _ {Ins : Type 0} where
  remove_from_found :
      (l : List Task) (a : ℕ) (c : Task) (w : World Ins)
      → task_at a l ≡ some c
      → remove_from l a w
        ≡ (fd_entry_close (some c.timer) w >>= λ w. some (record w { tasks = without a w.tasks }))
  unfolding remove_from
  remove_from_found [] a c w e = unfold task_at in cc
  remove_from_found (t ∷ rest) a c w e = rw e

  -- The world after the task is gone: the call of its function made `w'`.
  pub record Ended (w w' : World Ins) (c : Task) (after : Option (World Ins)) : Type 0 where
    pub entry : FdEntry
    pub was_watched : entry_at c.timer w.fds ≡ some entry
    pub result : after ≡ some (unlinked w' c (close entry.fd w'.armed))
    pub linked : IsLinked (unlinked w' c (close entry.fd w'.armed))
    pub gone : task_at c.addr (unlinked w' c (close entry.fd w'.armed)).tasks ≡ none

  module _ (w w' : World Ins) (c : Task) (h : IsLinked w) (e : task_at c.addr w.tasks ≡ some c)
      (g : Appends w w') where
    still_there : task_at c.addr w'.tasks ≡ some c
    still_there = rw g.tasks_after (task_at-append c.addr w.tasks g.tasks c e)

    remove-Ended : Ended w w' c (async_remove_entry c.addr w')
    unfolding async_remove_entry fd_entry_close unlinked
    remove-Ended =
        let (entry, at, _) = All-at _ c.addr w.tasks c h.watched e in
        let at' : entry_at c.timer w'.fds ≡ some entry =
          rw g.fds_after (entry_at-append_old c.timer w.fds g.fds entry at) in
        record {
          entry = entry;
          was_watched = at;
          result = remove_from_found w'.tasks c.addr c w' still_there ∙ rw at';
          linked = unlinked-IsLinked w' c (close entry.fd w'.armed) g.linked still_there;
          gone = task_at-without c.addr w'.tasks;
        }

  module _ (call : Call Ins) (w w' : World Ins) (c : Task) (h : IsLinked w) where
    -- Completing an identifier ends the first task that waits for it: its function is called with
    -- the result and, where it returns and only adds to the lists, the task and its timer are then
    -- taken out of them, and the timer is closed.
    pub async_complete-Ended :
        (id : ℕ) (r : ℤ)
        → task_with_id id w.tasks ≡ some c
        → call c.callback r c.uparam w ≡ some w'
        → Appends w w'
        → Ended w w' c (async_complete call id r w)
    unfolding async_complete
    async_complete-Ended id r e called g =
        rw (e, called) (remove-Ended w w' c h (task_at-with_id id w.tasks c h.addresses e) g)

    -- The timer of a task ends that task: its function is called with -ETIMEDOUT and, where it
    -- returns and only adds to the lists, the task and its timer are then taken out of them.
    pub async_timeout-Ended :
        task_at c.addr w.tasks ≡ some c
        → call c.callback neg_etimedout c.uparam w ≡ some w'
        → Appends w w'
        → Ended w w' c (async_timeout call c.timer w)
    unfolding async_timeout
    async_timeout-Ended e called g =
        rw (task_with_timer-at c.addr w.tasks c h.timers_apart e, called)
          (remove-Ended w w' c h e g)
