-- ===== src/Async/Refused.antt =====
-- The calls of `async_add` that add no task.
use libwlmio.Prelude.{ℕ, ◌≡◌, Option, none, some, pos, neg_enomem, false}
use libwlmio.State.{World, Callback, update}
use libwlmio.Async.{Answers, async_add}

module _ {Ins : Type 0} (w : World Ins) (os : Answers) (id timeout : ℕ) (param uparam : Option ℕ)
    (ep : ℕ) (open_ep : w.epollfd ≡ some ep) where
  pub async_add-unnamed : async_add os id timeout param none uparam w ≡ none
  unfolding async_add
  async_add-unnamed = rw open_ep

  module _ (callback : Callback) where
    pub async_add-no_memory :
        os.task_memory ≡ none
        → async_add os id timeout param (some callback) uparam w ≡ some (neg_enomem, w)
    unfolding async_add
    async_add-no_memory a = rw (open_ep, a)

    module _ (task : ℕ) (given : os.task_memory ≡ some task) where
      pub async_add-no_timer :
          os.timer ≡ none
          → async_add os id timeout param (some callback) uparam w ≡ some (pos os.errno, w)
      unfolding async_add
      async_add-no_timer a = rw (open_ep, given, a)

      pub async_add-unset :
          (timer : ℕ)
          → os.timer ≡ some timer
          → os.settime ≡ false
          → async_add os id timeout param (some callback) uparam w
            ≡ some (pos os.errno, record w { armed = update w.armed timer none })
      unfolding async_add
      async_add-unset timer a b = rw (open_ep, given, a, b)
