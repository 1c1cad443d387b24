-- ===== src/Async/Add.antt =====
-- The lists after `async_add` has accepted a task.
use libwlmio.Prelude.{
  ℕ, ◌+◌, ◌*◌, ◌<◌, ◌≡◌, ◌≢◌, refl, sym, ◌∙◌, ap, List, [], ◌∷◌, ◌++◌, Option, none, some, true,
  arith, pos, All, ==_refl,
}
use libwlmio.State.{World, FdEntry, Task, Callback, async_handler, update}
use libwlmio.Fds.Laws.{entry_at-append_old, entry_at-append_new}
use libwlmio.Fds.{fd_entry_add, entry_at}
use libwlmio.Async.{Answers, task_at, it_value, async_add}
use libwlmio.Async.Linked.{IsLinked, Distinct, Watched}

pub All-snoc :
    (P : Task → Type 0) (l : List Task) (t : Task) → All P l → P t → All P (l ++ (t ∷ []))
All-snoc P [] t h p = (p, tt)
All-snoc P (s ∷ rest) t h p = (h.0, All-snoc P rest t h.1 p)

pub Distinct-snoc :
    (key : Task → ℕ) (l : List Task) (t : Task)
    → Distinct key l
    → All (λ s. key s ≢ key t) l
    → Distinct key (l ++ (t ∷ []))
Distinct-snoc key [] t h p = (tt, tt)
Distinct-snoc key (s ∷ rest) t h p =
    (All-snoc _ rest t h.0 (λ e. p.0 (sym e)), Distinct-snoc key rest t h.1 p.1)

-- A task at a free address differs from every task by its address.
pub free_address : (a : ℕ) (l : List Task) → task_at a l ≡ none → All (λ s. s.addr ≢ a) l
unfolding task_at
free_address a [] h = tt
free_address a (s ∷ rest) h = (ground arith, free_address a rest (ground arith))

-- The timers in use are in the list, so an entry that is not there is nobody's timer.
pub free_timer :
    (a : ℕ) (fds : List FdEntry) (l : List Task)
    → entry_at a fds ≡ none
    → All (Watched fds) l
    → All (λ s. s.timer ≢ a) l
free_timer a fds [] h w = tt
free_timer a fds (s ∷ rest) h ((e, at, _), more) =
    ((λ p. absurd (cc (ap (λ k. entry_at k fds) p))), free_timer a fds rest h more)

pub Watched-append :
    (fds new : List FdEntry) (l : List Task) → All (Watched fds) l → All (Watched (fds ++ new)) l
Watched-append fds new [] w = tt
Watched-append fds new (s ∷ rest) ((e, at, handles), more) =
    ((e, entry_at-append_old s.timer fds new e at, handles), Watched-append fds new rest more)

module _ {Ins : Type 0} (w : World Ins) (task timer entry : ℕ) (id timeout : ℕ) (param : Option ℕ)
    (callback : Callback) (uparam : Option ℕ) where
  abbrev pub added_task : Task
  added_task = record {
    addr = task;
    id = id;
    timer = entry;
    param = param;
    callback = callback;
    uparam = uparam;
  }

  abbrev pub added_entry : FdEntry
  added_entry = record { addr = entry; fd = some timer; handler = async_handler }

  -- The world with the task, its timer set.
  unfoldable pub with_task : World Ins
  with_task = record w {
    tasks = w.tasks ++ (added_task ∷ []);
    fds = w.fds ++ (added_entry ∷ []);
    armed = update w.armed timer (some (it_value timeout));
  }

  pub with_task-IsLinked :
      IsLinked w → task_at task w.tasks ≡ none → entry_at entry w.fds ≡ none → IsLinked with_task
  unfolding with_task entry_at
  with_task-IsLinked h new_task new-Entry = record {
    addresses = Distinct-snoc _ w.tasks added_task h.addresses (free_address task w.tasks new_task);
    timers_apart =
        Distinct-snoc _ w.tasks added_task h.timers_apart
          (free_timer entry w.fds w.tasks new-Entry h.watched);
    watched =
        All-snoc _ w.tasks added_task (Watched-append w.fds (added_entry ∷ []) w.tasks h.watched) (
          added_entry,
          entry_at-append_new entry w.fds (added_entry ∷ []) new-Entry ∙ rw (==_refl entry),
          refl,
        );
  }

  -- Where the library is initialised and the calls of the system succeed, the task is added and the result is 0.
  pub async_add-with_task :
      (os : Answers) (ep : ℕ)
      → w.epollfd ≡ some ep
      → os.task_memory ≡ some task
      → os.timer ≡ some timer
      → os.settime ≡ true
      → os.entry_memory ≡ some entry
      → async_add os id timeout param (some callback) uparam w ≡ some (pos 0, with_task)
  unfolding async_add with_task fd_entry_add
  async_add-with_task os ep open_ep a b c e = rw (open_ep, a, b, c, e)

-- The seconds and nanoseconds of a timer add up to exactly the timeout, with fewer than a billion
-- nanoseconds.
pub it_value_exact :
    (timeout : ℕ)
    → ((it_value timeout).0 * 1000000000 + (it_value timeout).1 ≡ timeout * 1000)
      × ((it_value timeout).1 < 1000000000)
it_value_exact timeout = (omega arith, omega arith)
