-- ===== src/Heartbeat/Taken.antt =====
-- The nodes and their timers after a status was taken up: the part of `heartbeat_handler` that
-- keeps the timers.
use libwlmio.Prelude.{
  ◌⊎◌, ℕ, ◌≡◌, ◌≢◌, refl, ap, List, [], ◌∷◌, ◌++◌, Option, none, some, ==_refl, Option-cases, inl,
  inr, ne→==,
}
use native.Mathlib.Decide.{ℕ_discrete}
use libwlmio.Wire.{}
use libwlmio.State.{World, FdEntry, Status, heartbeat_timeout_handler, mode_offline, update}
use libwlmio.Fds.{fd_entry_find, entry_at, unlink, fd_entry_close, fd_entry_add, close}
use libwlmio.Heartbeat.{StatusCall, TimerAnswers, set_timer, track}
use libwlmio.Heartbeat.Tracking.{
  IsTracked, stop-IsTracked, keep-IsTracked, start-IsTracked, update_same,
}

-- `timerfd_create` and malloc succeed, with what is not in use.
pub record TimerReady (os : TimerAnswers) (fds : List FdEntry) : Type 0 where
  pub fd : ℕ
  pub address : ℕ
  pub timer_given : os.timer ≡ some fd
  pub entry_given : os.entry_memory ≡ some address
  pub fd_new : fd_entry_find (some fd) fds ≡ none
  pub address_new : entry_at address fds ≡ none

-- The world `w'` after `status` of `node` was taken up in `w`.
pub record Received {Ins : Type 0} (w : World Ins) (node : ℕ) (status : Status) (w' : World Ins)
    : Type 0 where
  pub nodes_after : w'.nodes ≡ update w.nodes node status
  pub tracked : IsTracked w'.nodes w'.timers w'.fds
  pub alive :
      (status.mode ≡ mode_offline)
      ⊎ ((fd : ℕ) × (w'.timers node ≡ some fd) × (w'.armed fd ≡ some (3, 0)))
  pub tasks_after : w'.tasks ≡ w.tasks
  pub callback_after : w'.user_callback ≡ w.user_callback

-- What became of the timers and of the list of file descriptors.
pub data TimerChange (timers : ℕ → Option ℕ) (fds : List FdEntry) (node : ℕ)
    (timers' : ℕ → Option ℕ) (fds' : List FdEntry) : Type 0 where
  kept : timers' ≡ timers → fds' ≡ fds → TimerChange timers fds node timers' fds'
  stopped :
      (fd : ℕ) (e : FdEntry)
      → timers node ≡ some fd
      → fd_entry_find (some fd) fds ≡ some e
      → entry_at e.addr fds ≡ some e
      → e.handler ≡ heartbeat_timeout_handler
      → timers' ≡ update timers node none
      → fds' ≡ unlink e.addr fds
      → TimerChange timers fds node timers' fds'
  started :
      (fd : ℕ) (e : FdEntry)
      → timers node ≡ none
      → e.fd ≡ some fd
      → e.handler ≡ heartbeat_timeout_handler
      → fd_entry_find (some fd) fds ≡ none
      → entry_at e.addr fds ≡ none
      → timers' ≡ update timers node (some fd)
      → fds' ≡ fds ++ (e ∷ [])
      → TimerChange timers fds node timers' fds'

pub record Result {Ins : Type 0} (w : World Ins) (node : ℕ) (status : Status)
    (after : Option (World Ins)) : Type 0 where
  pub world : World Ins
  pub result : after ≡ some world
  pub received : Received w node status world
  pub change : TimerChange w.timers w.fds node world.timers world.fds
  pub epoll_after : world.epollfd ≡ w.epollfd

module _ {Ins : Type 0} (status_call : StatusCall Ins) (os : TimerAnswers) (node : ℕ)
    (status : Status) (w : World Ins) (h : IsTracked w.nodes w.timers w.fds) where
  abbrev noted : World Ins
  noted = record w { nodes = update w.nodes node status }

  goes_offline :
      (fd : ℕ)
      → status.mode ≡ mode_offline
      → w.timers node ≡ some fd
      → Result w node status (track status_call os node status noted)
  unfolding track fd_entry_close
  goes_offline fd off at =
      let e = h.listed node fd at in
      record {
        world = record noted {
          timers = update w.timers node none;
          fds = unlink e.entry.addr w.fds;
          armed = close e.entry.fd w.armed;
        };
        result = rw (off, at, e.by_fd, e.by_address);
        received = record {
          nodes_after = refl;
          tracked = stop-IsTracked w.nodes w.timers w.fds h node status off fd at;
          alive = inl off;
          tasks_after = refl;
          callback_after = refl;
        };
        change = stopped fd e.entry at e.by_fd e.by_address e.times_out refl refl;
        epoll_after = refl;
      }

  stays_offline :
      status.mode ≡ mode_offline
      → w.timers node ≡ none
      → Result w node status (track status_call os node status noted)
  unfolding track
  stays_offline off at = record {
    world = noted;
    result = rw (off, at);
    received = record {
      nodes_after = refl;
      tracked =
          keep-IsTracked w.nodes w.timers w.fds h node status (λ on. absurd (on off)) (λ _. at);
      alive = inl off;
      tasks_after = refl;
      callback_after = refl;
    };
    change = kept refl refl;
    epoll_after = refl;
  }

  comes_online :
      TimerReady os w.fds
      → status.mode ≢ mode_offline
      → w.timers node ≡ none
      → Result w node status (track status_call os node status noted)
  unfolding track fd_entry_add
  comes_online ready on at =
      let entry : FdEntry = record {
        addr = ready.address;
        fd = some ready.fd;
        handler = heartbeat_timeout_handler;
      } in
      record {
        world = record noted {
          timers = update w.timers node (some ready.fd);
          fds = w.fds ++ (entry ∷ []);
          armed = update w.armed ready.fd (some (3, 0));
        };
        result = rw (
          ne→== status.mode mode_offline on,
          at,
          ready.entry_given,
          ready.timer_given,
          ==_refl node,
        );
        received = record {
          nodes_after = refl;
          tracked =
              start-IsTracked w.nodes w.timers w.fds h node status on ready.fd ready.address
                ready.fd_new ready.address_new;
          alive = inr (
            ready.fd,
            update_same w.timers node (some ready.fd),
            update_same w.armed ready.fd (some (3, 0)),
          );
          tasks_after = refl;
          callback_after = refl;
        };
        change = started ready.fd entry at refl refl ready.fd_new ready.address_new refl refl;
        epoll_after = refl;
      }

  stays_online :
      (fd : ℕ)
      → status.mode ≢ mode_offline
      → w.timers node ≡ some fd
      → Result w node status (track status_call os node status noted)
  unfolding track
  stays_online fd on at = record {
    world = record noted { armed = update w.armed fd (some (3, 0)) };
    result =
        rw (ne→== status.mode mode_offline on, at)
          (ap (λ (t : Option ℕ). some (set_timer status_call t noted)) at);
    received = record {
      nodes_after = refl;
      tracked =
          keep-IsTracked w.nodes w.timers w.fds h node status (λ _. (fd, at))
            (λ off. absurd (on off));
      alive = inr (fd, at, update_same w.armed fd (some (3, 0)));
      tasks_after = refl;
      callback_after = refl;
    };
    change = kept refl refl;
    epoll_after = refl;
  }

  pub track-Result :
      TimerReady os w.fds → Result w node status (track status_call os node status noted)
  track-Result ready = elim (ℕ_discrete status.mode mode_offline) [
    | yes off ↦ elim (Option-cases (w.timers node)) [
      | inl at ↦ stays_offline off at
      | inr (fd, at) ↦ goes_offline fd off at
    ]
    | no on ↦ elim (Option-cases (w.timers node)) [
      | inl at ↦ comes_online ready on at
      | inr (fd, at) ↦ stays_online fd on at
    ]
  ]
