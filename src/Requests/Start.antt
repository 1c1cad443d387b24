-- ===== src/Requests/Start.antt =====
-- What an accepted request leaves behind: a task that waits for the reply, with its timer.
use libwlmio.Prelude.{
  ℕ, ◌≡◌, refl, sym, ap, subst, List, [], ◌∷◌, ◌++◌, Option, none, some, true, arith, ==_refl, pos,
  ◌∙◌,
}
use libwlmio.State.{World, Canard, Transfer, TransferIds, Task, Callback}
use libwlmio.Fds.{entry_at}
use libwlmio.Async.{task_at, task_with_id}
use libwlmio.Async.Linked.{IsLinked}
use libwlmio.Async.Add.{with_task, with_task-IsLinked, async_add-with_task, added_task, added_entry}
use libwlmio.Transport.{uavcan_send, make_rsp_specifier}
use libwlmio.Transport.Sending.{uavcan_send-keeps}
use libwlmio.Requests.{RequestAnswers, begin}

-- The library is initialised, the calls of the system succeed, and what malloc gives is not in use.
pub record Ready {Ins : Type 0} (os : RequestAnswers) (w : World Ins) : Type 0 where
  pub epoll : ℕ
  pub task : ℕ
  pub timer : ℕ
  pub entry : ℕ
  pub initialised : w.epollfd ≡ some epoll
  pub payload_given : os.payload_memory ≡ true
  pub task_given : os.async.task_memory ≡ some task
  pub timer_given : os.async.timer ≡ some timer
  pub timer_set : os.async.settime ≡ true
  pub entry_given : os.async.entry_memory ≡ some entry
  pub task_new : task_at task w.tasks ≡ none
  pub entry_new : entry_at entry w.fds ≡ none

pub task_with_id-append :
    (id : ℕ) (l : List Task) (t : Task)
    → task_with_id id l ≡ none
    → t.id ≡ id
    → task_with_id id (l ++ (t ∷ [])) ≡ some t
unfolding task_with_id
task_with_id-append id [] t h e = rw (e, ==_refl id)
task_with_id-append id (s ∷ rest) t h e = ground (arith, task_with_id-append id rest t)

pub task_at-append_new :
    (a : ℕ) (l m : List Task) → task_at a l ≡ none → task_at a (l ++ m) ≡ task_at a m
unfolding task_at
task_at-append_new a [] m h = refl
task_at-append_new a (s ∷ rest) m h = ground (arith, task_at-append_new a rest m)

module _ {Ins : Type 0} (can : Canard Ins) (os : RequestAnswers) (w : World Ins)
    (ready : Ready os w) (tfr : Transfer) (ids : TransferIds) (param : Option ℕ)
    (callback : Callback) (uparam : Option ℕ) where
  abbrev pushed : World Ins
  pushed = record w { canard = can.tx_push w.canard tfr; tfr_ids = ids }

  -- The task that the request adds.
  abbrev pub waiting_task : Task
  waiting_task =
      added_task pushed ready.task ready.timer ready.entry (make_rsp_specifier tfr) w.timeout param
        callback uparam

  unfoldable pub started : World Ins
  unfolding uavcan_send
  started = uavcan_send can os.room (
      with_task pushed ready.task ready.timer ready.entry (make_rsp_specifier tfr) w.timeout param
        callback uparam)

  pub begin-started : begin can os tfr ids param (some callback) uparam w ≡ some (pos 0, started)
  unfolding begin started
  begin-started = rw (
      async_add-with_task pushed ready.task ready.timer ready.entry (make_rsp_specifier tfr)
        w.timeout param callback uparam os.async ready.epoll ready.initialised ready.task_given
        ready.timer_given ready.timer_set ready.entry_given)

  pub started_lists :
      (started.tasks ≡ w.tasks ++ (waiting_task ∷ []))
      × (started.tfr_ids ≡ ids)
      × (started.memory ≡ w.memory)
  unfolding started with_task
  started_lists =
      let kept = uavcan_send-keeps can os.room (
        with_task pushed ready.task ready.timer ready.entry (make_rsp_specifier tfr) w.timeout param
          callback uparam) in
      (
        ap (λ (v : World Ins). v.tasks) kept,
        ap (λ (v : World Ins). v.tfr_ids) kept,
        ap (λ (v : World Ins). v.memory) kept,
      )

  pub started_flag : started.sync_flag ≡ w.sync_flag
  unfolding started with_task
  started_flag =
      ap (λ (v : World Ins). v.sync_flag)
        (uavcan_send-keeps can os.room (
          with_task pushed ready.task ready.timer ready.entry (make_rsp_specifier tfr) w.timeout
            param callback uparam))

  pub started_fds :
      started.fds
      ≡ w.fds
        ++ (added_entry pushed ready.task ready.timer ready.entry
              (make_rsp_specifier tfr)
              w.timeout
              param
              callback
              uparam
            ∷ [])
  unfolding started with_task
  started_fds =
      ap (λ (v : World Ins). v.fds)
        (uavcan_send-keeps can os.room (
          with_task pushed ready.task ready.timer ready.entry (make_rsp_specifier tfr) w.timeout
            param callback uparam))

  pub started_at : task_at ready.task started.tasks ≡ some waiting_task
  started_at = rw started_lists.0 (
      task_at-append_new ready.task w.tasks (waiting_task ∷ []) ready.task_new
      ∙ unfold task_at in rw (==_refl ready.task))

  -- The lists keep their invariant.
  pub started-IsLinked : IsLinked w → IsLinked started
  unfolding started with_task
  started-IsLinked h =
      let put =
        with_task pushed ready.task ready.timer ready.entry (make_rsp_specifier tfr) w.timeout param
          callback uparam in
      let linked =
        with_task-IsLinked pushed ready.task ready.timer ready.entry (make_rsp_specifier tfr)
          w.timeout param callback uparam
          (record { addresses = h.addresses; timers_apart = h.timers_apart; watched = h.watched })
          ready.task_new ready.entry_new in
      let kept = uavcan_send-keeps can os.room put in
      subst IsLinked (sym kept) (record {
        addresses = linked.addresses;
        timers_apart = linked.timers_apart;
        watched = linked.watched;
      })
