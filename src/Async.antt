-- ===== src/Async.antt =====
-- The requests that wait for a reply: the list `head` of `struct task_entry` in
-- src/libwlmio/wlmio.c and its functions `async_*`. A task is unlinked by its address.
pub mod Linked
pub mod Add
pub mod Complete
pub mod Refused
use libwlmio.Prelude.{
  ℕ, ◌-◌, ◌*◌, ◌/◌, List, [], ◌∷◌, ◌++◌, Option, none, some, Bool, true, false, ◌>>=◌, ◌>>◌, check,
  ◌==◌, if◌then◌else◌, ℤ, pos, neg_enoent, neg_enomem, neg_etimedout,
}
use libwlmio.State.{World, Task, Callback, Handler, async_handler, update}
use libwlmio.Fds.{fd_entry_close, fd_entry_add}

-- What the calls of the system give to one call of `async_add`: the address of the new task, the
-- timer that `timerfd_create` opens, whether `timerfd_settime` set it, the address of the entry for
-- the timer, and `errno` after a failure.
pub record Answers : Type 0 where
  pub task_memory : Option ℕ
  pub timer : Option ℕ
  pub settime : Bool
  pub entry_memory : Option ℕ
  pub errno : ℕ

-- What a call through a function pointer does: the function, its result argument and `uparam`.
abbrev pub Call : Type 0 → Type 0
Call Ins = Callback → ℤ → Option ℕ → World Ins → Option (World Ins)

unfoldable pub task_with_id : ℕ → List Task → Option Task
task_with_id id [] = none
task_with_id id (c ∷ rest) = if c.id == id then some c else task_with_id id rest

unfoldable pub task_at : ℕ → List Task → Option Task
task_at a [] = none
task_at a (c ∷ rest) = if c.addr == a then some c else task_at a rest

unfoldable pub task_with_timer : ℕ → List Task → Option Task
task_with_timer a [] = none
task_with_timer a (c ∷ rest) = if c.timer == a then some c else task_with_timer a rest

unfoldable pub without : ℕ → List Task → List Task
without a [] = []
without a (c ∷ rest) = let others = without a rest in if c.addr == a then others else c ∷ others

-- The seconds and nanoseconds of a timeout in microseconds.
abbrev pub it_value : ℕ → ℕ × ℕ
it_value timeout = (timeout / 1000000, (timeout - timeout / 1000000 * 1000000) * 1000)

-- Whether a pointer or a descriptor is there.
abbrev pub is_open : Option ℕ → Bool
is_open none = false
is_open (some n) = true

found_param : Option Task → ℤ × Option ℕ
found_param none = (neg_enoent, none)
found_param (some c) = (pos 0, c.param)

module _ {Ins : Type 0} where
  remove_from : List Task → ℕ → World Ins → Option (World Ins)
  remove_from [] a w = some w
  remove_from (c ∷ rest) a w = do
    entry ← task_at a (c ∷ rest)
    w ← fd_entry_close (some entry.timer) w
    some (record w { tasks = without a w.tasks })

  -- A pointer to a task that was freed is a fault.
  unfoldable pub async_remove_entry : ℕ → World Ins → Option (World Ins)
  unfolding remove_from
  async_remove_entry a w = remove_from w.tasks a w

  -- The handler of a timer: its task has timed out. A timer of no task is a null pointer.
  unfoldable pub async_timeout : Call Ins → ℕ → World Ins → Option (World Ins)
  async_timeout call entry w = do
    c ← task_with_timer entry w.tasks
    w ← call c.callback neg_etimedout c.uparam w
    async_remove_entry c.addr w

  complete : Call Ins → ℤ → Option Task → World Ins → Option (World Ins)
  complete call r none w = some w
  complete call r (some c) w = do w ← call c.callback r c.uparam w; async_remove_entry c.addr w

  unfoldable pub async_complete : Call Ins → ℕ → ℤ → World Ins → Option (World Ins)
  unfolding complete
  async_complete call id r w = complete call r (task_with_id id w.tasks) w

  -- The result, and the pointer where the result is 0.
  unfoldable pub async_get_param : ℕ → World Ins → ℤ × Option ℕ
  unfolding found_param
  async_get_param id w = found_param (task_with_id id w.tasks)

  register_task :
      ℕ → Answers → ℕ → ℕ → Option ℕ → Callback → Option ℕ → World Ins → Option (ℤ × World Ins)
  register_task task os id timer param callback uparam w = do
    (entry, w) ← fd_entry_add os.entry_memory (some timer) async_handler w
    let added : Task = record {
      addr = task;
      id = id;
      timer = entry;
      param = param;
      callback = callback;
      uparam = uparam;
    }
    some (pos 0, record w { tasks = w.tasks ++ (added ∷ []) })

  arm_timer :
      ℕ
      → Answers
      → ℕ
      → ℕ
      → Option ℕ
      → Callback
      → Option ℕ
      → Option ℕ
      → World Ins
      → Option (ℤ × World Ins)
  unfolding register_task
  arm_timer task os id timeout param callback uparam none w = some (pos os.errno, w)
  arm_timer task os id timeout param callback uparam (some timer) w =
      if os.settime
      then register_task task os id timer param callback uparam
          (record w { armed = update w.armed timer (some (it_value timeout)) })
      else some (pos os.errno, record w { armed = update w.armed timer none })

  add_task :
      Option ℕ
      → Answers
      → ℕ
      → ℕ
      → Option ℕ
      → Callback
      → Option ℕ
      → World Ins
      → Option (ℤ × World Ins)
  unfolding arm_timer
  add_task none os id timeout param callback uparam w = some (neg_enomem, w)
  add_task (some task) os id timeout param callback uparam w =
      arm_timer task os id timeout param callback uparam os.timer w

  -- Both assertions, then the task at the end of the list. A failed timer gives `errno` itself,
  -- which is positive.
  unfoldable pub async_add :
      Answers → ℕ → ℕ → Option ℕ → Option Callback → Option ℕ → World Ins → Option (ℤ × World Ins)
  unfolding add_task
  async_add os id timeout param callback uparam w = do
    check (is_open w.epollfd)
    callback ← callback
    add_task os.task_memory os id timeout param callback uparam w
