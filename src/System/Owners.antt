-- ===== src/System/Owners.antt =====
-- The owners of the entries after an entry was added or closed.
use libwlmio.Prelude.{
  ℕ, ◌≡◌, ◌≢◌, sym, ◌∙◌, ap, subst, List, [], ◌∷◌, ◌++◌, Option, none, some, true, false, inl, inr,
  ◌⊎◌, ◌==◌, ne→==, ==_refl, eq_of_some, Bool-cases, Option-cases, arith,
}
use libwlmio.State.{FdEntry, Task, Handler, update}
use libwlmio.Fds.{entry_at, fd_entry_find, unlink}
use libwlmio.Fds.Find.{find-unlink, find-append_old}
use libwlmio.Fds.Laws.{entry_at-unlink, entry_at-append_old, entry_at-append_new}
use libwlmio.Fds.Pointers.Chain.{entry_addr}
use libwlmio.Async.{task_at, without}
use libwlmio.Async.Complete.{task_at-append}
use libwlmio.System.{Owned, AllOwned, socket, waiter, watcher}

pub task_at-without_other :
    (a b : ℕ) (l : List Task) (t : Task)
    → b ≢ a
    → task_at b l ≡ some t
    → task_at b (without a l) ≡ some t
unfolding task_at without
task_at-without_other a b [] t other h = cc
task_at-without_other a b (c ∷ rest) t other h = ground (arith, task_at-without_other a b rest t)

-- An entry of a list without another, and of a list with one more.
pub unlinked_at :
    (k a : ℕ) (fds : List FdEntry) (e : FdEntry)
    → entry_at a (unlink k fds) ≡ some e
    → (a ≢ k) × (entry_at a fds ≡ some e) × (e.addr ≡ a)
unlinked_at k a fds e h = elim (Bool-cases (k == a)) [
  | inl hit ↦
      let shown : none ≡ some e = rw (entry_at-unlink k a fds, hit) at h in absurd (cc shown)
  | inr miss ↦
      let at : entry_at a fds ≡ some e = rw (entry_at-unlink k a fds, miss) at h in
      (
        (λ p. let shown : true ≡ false = sym (==_refl a) ∙ ap (λ x. x == a) p ∙ miss in cc shown),
        at,
        entry_addr a fds e at,
      )
]

pub appended_at :
    (a : ℕ) (fds : List FdEntry) (n e : FdEntry)
    → entry_at a (fds ++ (n ∷ [])) ≡ some e
    → (entry_at a fds ≡ some e) ⊎ (n ≡ e)
unfolding entry_at
appended_at a fds n e h = elim (Option-cases (entry_at a fds)) [
  | inr (c, at) ↦ inl (at ∙ sym (entry_at-append_old a fds (n ∷ []) c at) ∙ h)
  | inl none_there ↦
      let last : entry_at a (n ∷ []) ≡ some e =
        sym (entry_at-append_new a fds (n ∷ []) none_there) ∙ h in
      elim (Bool-cases (n.addr == a)) [
        | inl hit ↦ inr (eq_of_some (rw hit at last))
        | inr miss ↦ let shown : none ≡ some e = rw miss at last in absurd (cc shown)
      ]
]

module _ (timers : ℕ → Option ℕ) (fds : List FdEntry) (tasks : List Task)
    (h : AllOwned timers fds tasks) where
  -- A task goes, with the entry of its timer.
  pub AllOwned-remove :
      (c : Task)
      → task_at c.addr tasks ≡ some c
      → AllOwned timers (unlink c.timer fds) (without c.addr tasks)
  AllOwned-remove c here a e at =
      let (other, at', addr) = unlinked_at c.timer a fds e at in
      elim (h a e at') [
        | socket p ↦ socket p
        | waiter t p there timer ↦
            waiter t p
              (task_at-without_other c.addr t.addr tasks t
                (λ q.
                  let same : t ≡ c = eq_of_some (sym there ∙ ap (λ x. task_at x tasks) q ∙ here) in
                  other (sym addr ∙ sym timer ∙ ap (λ (x : Task). x.timer) same))
                there)
              timer
        | watcher node fd p timer found ↦
            watcher node fd p timer
              (find-unlink (some fd) c.timer fds e found (λ q. other (sym addr ∙ q)))
      ]

  -- A task comes, with the entry of its timer.
  pub AllOwned-add :
      (t : Task) (n : FdEntry)
      → task_at t.addr (tasks ++ (t ∷ [])) ≡ some t
      → n.handler ≡ Handler.async_handler
      → t.timer ≡ n.addr
      → AllOwned timers (fds ++ (n ∷ [])) (tasks ++ (t ∷ []))
  AllOwned-add t n new handles timer_is a e at = elim (appended_at a fds n e at) [
    | inr same ↦
        subst (Owned timers (fds ++ (n ∷ [])) (tasks ++ (t ∷ []))) same
          (waiter t handles new timer_is)
    | inl old ↦ elim (h a e old) [
      | socket p ↦ socket p
      | waiter s p there timer ↦ waiter s p (task_at-append s.addr tasks (t ∷ []) s there) timer
      | watcher node fd p timer found ↦
          watcher node fd p timer (find-append_old (some fd) fds (n ∷ []) e found)
    ]
  ]

  -- The timer of a node is closed.
  pub AllOwned-stop :
      (node fd : ℕ) (k : FdEntry)
      → timers node ≡ some fd
      → fd_entry_find (some fd) fds ≡ some k
      → AllOwned (update timers node none) (unlink k.addr fds) tasks
  AllOwned-stop node fd k is found_k a e at =
      let (other, at', addr) = unlinked_at k.addr a fds e at in
      elim (h a e at') [
        | socket p ↦ socket p
        | waiter t p there timer ↦ waiter t p there timer
        | watcher m fd' p timer found ↦
            let apart : m ≢ node = λ q.
              let same_fd : some fd' ≡ some fd = sym timer ∙ ap timers q ∙ is in
              let same : e ≡ k =
                eq_of_some (sym found ∙ ap (λ x. fd_entry_find x fds) same_fd ∙ found_k) in
              other (sym addr ∙ ap (λ (x : FdEntry). x.addr) same) in
            watcher m fd' p (rw (ne→== m node apart) timer)
              (find-unlink (some fd') k.addr fds e found (λ q. other (sym addr ∙ q)))
      ]

  -- A node gets a timer.
  pub AllOwned-start :
      (node fd : ℕ) (n : FdEntry)
      → timers node ≡ none
      → n.handler ≡ Handler.heartbeat_timeout_handler
      → fd_entry_find (some fd) (fds ++ (n ∷ [])) ≡ some n
      → AllOwned (update timers node (some fd)) (fds ++ (n ∷ [])) tasks
  AllOwned-start node fd n free handles found_n a e at = elim (appended_at a fds n e at) [
    | inr same ↦
        subst (Owned (update timers node (some fd)) (fds ++ (n ∷ [])) tasks) same
          (watcher node fd handles (rw (==_refl node)) found_n)
    | inl old ↦ elim (h a e old) [
      | socket p ↦ socket p
      | waiter t p there timer ↦ waiter t p there timer
      | watcher m fd' p timer found ↦
          let apart : m ≢ node =
            λ q. let shown : none ≡ some fd' = sym free ∙ ap timers (sym q) ∙ timer in cc shown in
          watcher m fd' p (rw (ne→== m node apart) timer)
            (find-append_old (some fd') fds (n ∷ []) e found)
    ]
  ]
