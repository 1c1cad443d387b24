-- ===== src/System/Tasks.antt =====
-- The invariant through the end of a task.
use libwlmio.Prelude.{
  ℕ, ℤ, ◌≡◌, refl, ◌∙◌, ap, Option, none, some, Option-cases, inl, inr, neg_etimedout,
}
use libwlmio.State.{World, Task, Callback, Status}
use libwlmio.Async.{Call, task_at, task_with_id, async_complete, async_timeout}
use libwlmio.Async.Linked.{All-at, All-with_id, task_at-with_id, unlinked}
use libwlmio.Async.Complete.{
  Appends, Ended, task_at-append, async_complete-Ended, async_timeout-Ended,
}
use libwlmio.Heartbeat.{StatusCall, notify}
use libwlmio.System.{IsLive, IsLive-IsLinked, Extends}
use libwlmio.System.Lists.{IsSound-remove}

module _ {Ins : Type 0} (IsSafe : Callback → Type 0) where
  -- What the functions of the application keep to: they return, and what they do to the library is
  -- to start requests.
  abbrev pub Behaves : Call Ins → Type 0
  Behaves call =
      (callback : Callback) (r : ℤ) (uparam : Option ℕ) (w : World Ins)
      → IsSafe callback
      → IsLive IsSafe w
      → (w' : World Ins) × (call callback r uparam w ≡ some w') × Extends IsSafe w w'

  abbrev pub Notices : StatusCall Ins → Type 0
  Notices status_call =
      (f node : ℕ) (old new : Status) (w : World Ins)
      → IsLive IsSafe w
      → (w' : World Ins) × (status_call f node old new w ≡ some w') × IsLive IsSafe w'

  -- No fault, and the invariant afterwards.
  abbrev pub Settles : Option (World Ins) → Type 0
  Settles after = (w' : World Ins) × (after ≡ some w') × IsLive IsSafe w'

  pub notify-Settles :
      (status_call : StatusCall Ins)
      → Notices status_call
      → (f : Option ℕ) (node : ℕ) (old new : Status) (w : World Ins) → IsLive IsSafe w
      → Settles (notify status_call f node old new w)
  unfolding notify
  notify-Settles status_call notices none node old new w h = (w, refl, h)
  notify-Settles status_call notices (some f) node old new w h = notices f node old new w h

  appends : (w w' : World Ins) → Extends IsSafe w w' → Appends w w'
  appends w w' g = record {
    tasks = g.tasks;
    fds = g.fds;
    tasks_after = g.tasks_after;
    fds_after = g.fds_after;
    linked = IsLive-IsLinked IsSafe w' g.live;
  }

  ended :
      (w w' : World Ins) (c : Task) (after : Option (World Ins))
      → task_at c.addr w.tasks ≡ some c
      → Extends IsSafe w w'
      → Ended w w' c after
      → Settles after
  unfolding unlinked
  ended w w' c after here g e =
      let there : task_at c.addr w'.tasks ≡ some c =
        ap (task_at c.addr) g.tasks_after ∙ task_at-append c.addr w.tasks g.tasks c here in
      (
        _,
        e.result,
        IsSound-remove IsSafe w'.epollfd w'.nodes w'.timers w'.fds w'.tasks g.live c there,
      )

  module _ (call : Call Ins) (behaves : Behaves call) (w : World Ins) (h : IsLive IsSafe w) where
    pub async_complete-Settles : (id : ℕ) (r : ℤ) → Settles (async_complete call id r w)
    async_complete-Settles id r = elim (Option-cases (task_with_id id w.tasks)) [
      | inl nobody ↦ (w, unfold async_complete in rw nobody, h)
      | inr (c, waits) ↦
          let (w', called, g) =
            behaves c.callback r c.uparam w (All-with_id _ id w.tasks c h.safe waits) h in
          ended w w' c (async_complete call id r w) (task_at-with_id id w.tasks c h.addresses waits)
            g
            (async_complete-Ended call w w' c (IsLive-IsLinked IsSafe w h) id r waits called
              (appends w w' g))
    ]

    pub async_timeout-Settles :
        (c : Task) → task_at c.addr w.tasks ≡ some c → Settles (async_timeout call c.timer w)
    async_timeout-Settles c here =
        let (w', called, g) =
          behaves c.callback neg_etimedout c.uparam w (All-at _ c.addr w.tasks c h.safe here) h in
        ended w w' c (async_timeout call c.timer w) here g (
          async_timeout-Ended call w w' c (IsLive-IsLinked IsSafe w h) here called (appends w w' g))
