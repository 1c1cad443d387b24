-- ===== src/System/Requests.antt =====
-- The invariant through the requests, whatever the calls of the system give.
use libwlmio.Prelude.{
  ℕ, ℤ, ◌/◌, ◌≡◌, ◌≢◌, refl, sym, ◌∙◌, subst, [], ◌∷◌, append-nil, Option, none, some, Bool-cases,
  Option-cases, inl, inr, pos, eq_of_some,
}
use libwlmio.State.{World, Canard, Transfer, TransferIds, Callback}
use libwlmio.Fds.{entry_at}
use libwlmio.Async.{Answers, task_at, async_add}
use libwlmio.Async.Add.{with_task, added_task, added_entry, async_add-with_task}
use libwlmio.Async.Refused.{
  async_add-unnamed, async_add-no_memory, async_add-no_timer, async_add-unset,
}
use libwlmio.Transport.{uavcan_send, make_rsp_specifier}
use libwlmio.Transport.Sending.{uavcan_send-keeps}
use libwlmio.Requests.{RequestAnswers, begin}
use libwlmio.System.{IsLive, Extends}
use libwlmio.System.Lists.{IsSound-add}

-- Memory that the system gives is not in use, and there is some for the entry of a timer, which the
-- code uses unchecked.
pub record IsFresh {Ins : Type 0} (os : Answers) (w : World Ins) : Type 0 where
  pub task_new : (a : ℕ) → os.task_memory ≡ some a → task_at a w.tasks ≡ none
  pub entry : ℕ
  pub entry_given : os.entry_memory ≡ some entry
  pub entry_new : entry_at entry w.fds ≡ none

-- A request of which the reply is written through a pointer gives one.
abbrev pub GivesParam : ℕ → Option ℕ → Type 0
GivesParam id param = param ≡ none → (id / 4096 ≢ 430) × (id / 4096 ≢ 385)

module _ {Ins : Type 0} (IsSafe : Callback → Type 0) where
  -- A world that differs in neither list is an extension by nothing.
  pub same-Extends :
      (w w' : World Ins)
      → w'.tasks ≡ w.tasks
      → w'.fds ≡ w.fds
      → IsLive IsSafe w'
      → Extends IsSafe w w'
  same-Extends w w' p q live = record {
    tasks = [];
    fds = [];
    tasks_after = p ∙ sym (append-nil w.tasks);
    fds_after = q ∙ sym (append-nil w.fds);
    live = live;
  }

  module _ (os : Answers) (id timeout : ℕ) (param uparam : Option ℕ) (callback : Callback)
      (w : World Ins) (h : IsLive IsSafe w) (fresh : IsFresh os w) (safe : IsSafe callback)
      (gives : GivesParam id param) where
    added :
        (task timer : ℕ)
        → os.task_memory ≡ some task
        → Extends IsSafe w (with_task w task timer fresh.entry id timeout param callback uparam)
    unfolding with_task
    added task timer given = record {
      tasks = added_task w task timer fresh.entry id timeout param callback uparam ∷ [];
      fds = added_entry w task timer fresh.entry id timeout param callback uparam ∷ [];
      tasks_after = refl;
      fds_after = refl;
      live =
          IsSound-add IsSafe w.epollfd w.nodes w.timers w.fds w.tasks h
            (added_task w task timer fresh.entry id timeout param callback uparam)
            (added_entry w task timer fresh.entry id timeout param callback uparam)
            (fresh.task_new task given) fresh.entry_new refl refl gives safe;
    }

    pub async_add-Extends :
        (r : ℤ) × (w' : World Ins) × (async_add os id timeout param (some callback) uparam w
          ≡ some (r, w'))
        × Extends IsSafe w w'
    async_add-Extends =
        let (ep, open_ep) = h.opened in
        elim (Option-cases os.task_memory) [
          | inl no_memory ↦ (
            _,
            w,
            async_add-no_memory w os id timeout param uparam ep open_ep callback no_memory,
            same-Extends w w refl refl h,
          )
          | inr (task, given) ↦ elim (Option-cases os.timer) [
            | inl no_timer ↦ (
              _,
              w,
              async_add-no_timer w os id timeout param uparam ep open_ep callback task given
                  no_timer,
              same-Extends w w refl refl h,
            )
            | inr (timer, opened) ↦ elim (Bool-cases os.settime) [
              | inr unset ↦ (
                _,
                _,
                async_add-unset w os id timeout param uparam ep open_ep callback task given timer
                    opened unset,
                same-Extends w _ refl refl h,
              )
              | inl set ↦ (
                _,
                _,
                async_add-with_task w task timer fresh.entry id timeout param callback uparam os ep
                    open_ep given opened set fresh.entry_given,
                added task timer given,
              )
            ]
          ]
        ]

  module _ (can : Canard Ins) (os : RequestAnswers) (tfr : Transfer) (ids : TransferIds)
      (param uparam : Option ℕ) (w : World Ins) (h : IsLive IsSafe w) where
    abbrev pushed : World Ins
    pushed = record w { canard = can.tx_push w.canard tfr; tfr_ids = ids }

    sent_on : (w' : World Ins) → Extends IsSafe w w' → Extends IsSafe w (uavcan_send can os.room w')
    sent_on w' g = subst (Extends IsSafe w) (sym (uavcan_send-keeps can os.room w')) (record {
      tasks = g.tasks;
      fds = g.fds;
      tasks_after = g.tasks_after;
      fds_after = g.fds_after;
      live = g.live;
    })

    -- A request that names a function does not fault in a state in which the invariant holds,
    -- whether or not there is memory for its task and a timer that can be set: it returns 0 and
    -- keeps the invariant, and the tasks and entries that were there are still first in their
    -- lists. Memory that is given is not in use, there is memory for the entry of a timer, and a
    -- request of the two services that reply through a pointer gives one.
    pub begin-Extends :
        (callback : Callback)
        → IsSafe callback
        → IsFresh os.async w
        → GivesParam (make_rsp_specifier tfr) param
        → (w' : World Ins) × (begin can os tfr ids param (some callback) uparam w
            ≡ some (pos 0, w'))
          × Extends IsSafe w w'
    unfolding begin
    begin-Extends callback safe fresh gives =
        let (r, w', adds, g) =
          async_add-Extends os.async (make_rsp_specifier tfr) w.timeout param uparam callback pushed
            h
            (record {
              task_new = fresh.task_new;
              entry = fresh.entry;
              entry_given = fresh.entry_given;
              entry_new = fresh.entry_new;
            })
            safe gives in
        (
          uavcan_send can os.room w',
          rw adds,
          sent_on w' (record {
            tasks = g.tasks;
            fds = g.fds;
            tasks_after = g.tasks_after;
            fds_after = g.fds_after;
            live = g.live;
          }),
        )

    pub begin-unnamed : begin can os tfr ids param none uparam w ≡ none
    unfolding begin
    begin-unnamed = rw (
        async_add-unnamed pushed os.async (make_rsp_specifier tfr) w.timeout param uparam
          (h.opened.0) (h.opened.1))

    -- The same, of a request that returned.
    pub returned-Extends :
        (callback : Option Callback) (r : ℤ) (w' : World Ins)
        → ((c : Callback) → callback ≡ some c → IsSafe c)
        → IsFresh os.async w
        → GivesParam (make_rsp_specifier tfr) param
        → begin can os tfr ids param callback uparam w ≡ some (r, w')
        → Extends IsSafe w w'
    returned-Extends none r w' safe fresh gives e = absurd (cc (sym begin-unnamed ∙ e))
    returned-Extends (some c) r w' safe fresh gives e =
        let (last, done, g) = begin-Extends c (safe c refl) fresh gives in
        subst (λ (x : ℤ × World Ins). Extends IsSafe w x.1) (eq_of_some (sym done ∙ e)) g
