-- ===== src/System/Lists.antt =====
-- The invariant after each change of the lists: a task goes or comes, a node's timer is closed or
-- started.
use libwlmio.Prelude.{
  ℕ, ◌≤◌, ◌≡◌, ◌≢◌, sym, ◌∙◌, ap, subst, List, [], ◌∷◌, ◌++◌, Option, none, some, inl, inr, ==_refl,
  ne→==, eq_of_some, All,
}
use libwlmio.State.{FdEntry, Task, Status, Callback, Handler, update}
use libwlmio.Fds.{entry_at, fd_entry_find, unlink}
use libwlmio.Fds.Find.{find-unlink, find-append_old, find-append_new}
use libwlmio.Fds.Laws.{entry_at-unlink, entry_at-append_old, entry_at-append_new}
use libwlmio.Async.{task_at, without}
use libwlmio.Async.Add.{Watched-append, Distinct-snoc, All-snoc, free_address, free_timer}
use libwlmio.Async.Linked.{
  Watched, All-at, All-without, Distinct-without, Watched-unlink, others_apart,
}
use libwlmio.Requests.Start.{task_at-append_new}
use libwlmio.Heartbeat.Tracking.{IsTracked, Entry, update-some}
use libwlmio.System.{IsSound, HasParam}
use libwlmio.System.Owners.{AllOwned-remove, AllOwned-add, AllOwned-stop, AllOwned-start}

module _ (nodes : ℕ → Status) (timers : ℕ → Option ℕ) (fds : List FdEntry)
    (h : IsTracked nodes timers fds) where
  -- The timer of a task is no node's.
  Entry-unlink :
      (k fd : ℕ) (e : FdEntry)
      → entry_at k fds ≡ some e
      → e.handler ≡ Handler.async_handler
      → Entry fds fd
      → Entry (unlink k fds) fd
  Entry-unlink k fd e at handles its =
      let differ : its.entry.addr ≢ k = λ p.
        let same : its.entry ≡ e =
          eq_of_some (sym its.by_address ∙ ap (λ a. entry_at a fds) p ∙ at) in
        let both : Handler.heartbeat_timeout_handler ≡ Handler.async_handler =
          sym its.times_out ∙ ap (λ (x : FdEntry). x.handler) same ∙ handles in
        cc both in
      record {
        entry = its.entry;
        by_fd = find-unlink (some fd) k fds its.entry its.by_fd differ;
        by_address =
            entry_at-unlink k its.entry.addr fds
            ∙ rw (ne→== k its.entry.addr (λ p. differ (sym p))) its.by_address;
        times_out = its.times_out;
      }

  IsTracked-unlink :
      (k : ℕ) (e : FdEntry)
      → entry_at k fds ≡ some e
      → e.handler ≡ Handler.async_handler
      → IsTracked nodes timers (unlink k fds)
  IsTracked-unlink k e at handles = record {
    online = h.online;
    absent = h.absent;
    listed = λ n fd is. Entry-unlink k fd e at handles (h.listed n fd is);
    apart = h.apart;
  }

  IsTracked-append : (new : List FdEntry) → IsTracked nodes timers (fds ++ new)
  IsTracked-append new = record {
    online = h.online;
    absent = h.absent;
    listed = λ n fd is.
        let its = h.listed n fd is in
        record {
          entry = its.entry;
          by_fd = find-append_old (some fd) fds new its.entry its.by_fd;
          by_address = entry_at-append_old its.entry.addr fds new its.entry its.by_address;
          times_out = its.times_out;
        };
    apart = h.apart;
  }

-- The timer of a node is no task's.
nobody :
    (k : FdEntry) (fds : List FdEntry) (l : List Task)
    → entry_at k.addr fds ≡ some k
    → k.handler ≡ Handler.heartbeat_timeout_handler
    → All (Watched fds) l
    → All (λ t. t.timer ≢ k.addr) l
nobody k fds [] at handles w = tt
nobody k fds (t ∷ rest) at handles ((e, there, waits), more) = (
  (λ p.
      let same : k ≡ e = eq_of_some (sym at ∙ ap (λ a. entry_at a fds) (sym p) ∙ there) in
      let both : Handler.heartbeat_timeout_handler ≡ Handler.async_handler =
        sym handles ∙ ap (λ (x : FdEntry). x.handler) same ∙ waits in
      cc both),
  nobody k fds rest at handles more,
)

module _ (IsSafe : Callback → Type 0) (epollfd : Option ℕ) (nodes : ℕ → Status)
    (timers : ℕ → Option ℕ) (fds : List FdEntry) (tasks : List Task)
    (h : IsSound IsSafe epollfd nodes timers fds tasks) where
  pub IsSound-remove :
      (c : Task)
      → task_at c.addr tasks ≡ some c
      → IsSound IsSafe epollfd nodes timers (unlink c.timer fds) (without c.addr tasks)
  IsSound-remove c here =
      let (e, at, handles) = All-at _ c.addr tasks c h.watched here in
      record {
        opened = h.opened;
        addresses = Distinct-without _ c.addr tasks h.addresses;
        timers_apart = Distinct-without _ c.addr tasks h.timers_apart;
        watched =
            Watched-unlink c.timer fds _ (others_apart c.addr tasks c h.timers_apart here)
              (All-without _ c.addr tasks h.watched);
        tracked = IsTracked-unlink nodes timers fds h.tracked c.timer e at handles;
        below = h.below;
        owned = AllOwned-remove timers fds tasks h.owned c here;
        params = All-without _ c.addr tasks h.params;
        safe = All-without _ c.addr tasks h.safe;
      }

  pub IsSound-add :
      (t : Task) (n : FdEntry)
      → task_at t.addr tasks ≡ none
      → entry_at n.addr fds ≡ none
      → n.handler ≡ Handler.async_handler
      → t.timer ≡ n.addr
      → HasParam t
      → IsSafe t.callback
      → IsSound IsSafe epollfd nodes timers (fds ++ (n ∷ [])) (tasks ++ (t ∷ []))
  unfolding task_at entry_at
  IsSound-add t n task_new entry_new handles timer_is param safe = record {
    opened = h.opened;
    addresses = Distinct-snoc _ tasks t h.addresses (free_address t.addr tasks task_new);
    timers_apart =
        Distinct-snoc _ tasks t h.timers_apart
          (free_timer t.timer fds tasks (ap (λ a. entry_at a fds) timer_is ∙ entry_new) h.watched);
    watched = All-snoc _ tasks t (Watched-append fds (n ∷ []) tasks h.watched) (
      n,
      ap (λ a. entry_at a (fds ++ (n ∷ []))) timer_is
          ∙ entry_at-append_new n.addr fds (n ∷ []) entry_new
          ∙ rw (==_refl n.addr),
      handles,
    );
    tracked = IsTracked-append nodes timers fds h.tracked (n ∷ []);
    below = h.below;
    owned =
        AllOwned-add timers fds tasks h.owned t n
          (task_at-append_new t.addr tasks (t ∷ []) task_new ∙ rw (==_refl t.addr)) handles
          timer_is;
    params = All-snoc _ tasks t h.params param;
    safe = All-snoc _ tasks t h.safe safe;
  }

  -- The status of a node changes, its timers being in step with it.
  module _ (nodes' : ℕ → Status) where
    pub IsSound-keep : IsTracked nodes' timers fds → IsSound IsSafe epollfd nodes' timers fds tasks
    IsSound-keep tracked = record {
      opened = h.opened;
      addresses = h.addresses;
      timers_apart = h.timers_apart;
      watched = h.watched;
      tracked = tracked;
      below = h.below;
      owned = h.owned;
      params = h.params;
      safe = h.safe;
    }

    pub IsSound-stop :
        (node fd : ℕ) (k : FdEntry)
        → timers node ≡ some fd
        → fd_entry_find (some fd) fds ≡ some k
        → entry_at k.addr fds ≡ some k
        → k.handler ≡ Handler.heartbeat_timeout_handler
        → IsTracked nodes' (update timers node none) (unlink k.addr fds)
        → IsSound IsSafe epollfd nodes' (update timers node none) (unlink k.addr fds) tasks
    IsSound-stop node fd k is found at handles tracked = record {
      opened = h.opened;
      addresses = h.addresses;
      timers_apart = h.timers_apart;
      watched = Watched-unlink k.addr fds tasks (nobody k fds tasks at handles h.watched) h.watched;
      tracked = tracked;
      below = λ m fd' e. elim (update-some timers node m none e) [
        | inl (_, q) ↦ absurd (cc q)
        | inr (_, q) ↦ h.below m fd' q
      ];
      owned = AllOwned-stop timers fds tasks h.owned node fd k is found;
      params = h.params;
      safe = h.safe;
    }

    pub IsSound-start :
        (node fd : ℕ) (n : FdEntry)
        → node ≤ 126
        → timers node ≡ none
        → n.fd ≡ some fd
        → n.handler ≡ Handler.heartbeat_timeout_handler
        → fd_entry_find (some fd) fds ≡ none
        → IsTracked nodes' (update timers node (some fd)) (fds ++ (n ∷ []))
        → IsSound IsSafe epollfd nodes' (update timers node (some fd)) (fds ++ (n ∷ [])) tasks
    unfolding fd_entry_find
    IsSound-start node fd n fits free fd_is handles fd_new tracked = record {
      opened = h.opened;
      addresses = h.addresses;
      timers_apart = h.timers_apart;
      watched = Watched-append fds (n ∷ []) tasks h.watched;
      tracked = tracked;
      below = λ m fd' e. elim (update-some timers node m (some fd) e) [
        | inl (p, q) ↦ subst (λ x. x ≤ 126) (sym p) fits
        | inr (_, q) ↦ h.below m fd' q
      ];
      owned =
          AllOwned-start timers fds tasks h.owned node fd n free handles
            (find-append_new (some fd) fds (n ∷ []) fd_new ∙ rw (fd_is, ==_refl fd));
      params = h.params;
      safe = h.safe;
    }
