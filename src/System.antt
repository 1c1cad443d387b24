-- ===== src/System.antt =====
-- The library as one state machine: what holds of the file-scope variables of
-- src/libwlmio/wlmio.c between any two of its calls.
pub mod Owners
pub mod Lists
pub mod Tasks
pub mod Nodes
pub mod Replies
pub mod Events
pub mod Requests
pub mod Asked
pub mod Reach
pub mod Started
use libwlmio.Prelude.{ℕ, ◌/◌, ◌≤◌, ◌≡◌, ◌≢◌, List, ◌++◌, Option, none, some, All}
use libwlmio.State.{World, FdEntry, Task, Status, Callback, Handler}
use libwlmio.Fds.{entry_at, fd_entry_find}
use libwlmio.Async.{task_at}
use libwlmio.Async.Linked.{IsLinked, Distinct, Watched}
use libwlmio.Heartbeat.Tracking.{IsTracked}

-- Whose entry of the list of file descriptors it is.
pub data Owned (timers : ℕ → Option ℕ) (fds : List FdEntry) (tasks : List Task) (e : FdEntry)
    : Type 0 where
  socket : e.handler ≡ Handler.can_socket_handler → Owned timers fds tasks e
  waiter :
      (t : Task)
      → e.handler ≡ Handler.async_handler
      → task_at t.addr tasks ≡ some t
      → t.timer ≡ e.addr
      → Owned timers fds tasks e
  watcher :
      (node fd : ℕ)
      → e.handler ≡ Handler.heartbeat_timeout_handler
      → timers node ≡ some fd
      → fd_entry_find (some fd) fds ≡ some e
      → Owned timers fds tasks e

abbrev pub AllOwned : (ℕ → Option ℕ) → List FdEntry → List Task → Type 0
AllOwned timers fds tasks =
    (a : ℕ) (e : FdEntry) → entry_at a fds ≡ some e → Owned timers fds tasks e

-- A request whose reply is written through its pointer has one. The service is the top 9 bits of
-- the identifier.
abbrev pub HasParam : Task → Type 0
HasParam t = t.param ≡ none → (t.id / 4096 ≢ 430) × (t.id / 4096 ≢ 385)

module _ (IsSafe : Callback → Type 0) where
  -- The invariant of the variables. The functions that wait are of a kind that `IsSafe` names.
  pub record IsSound (epollfd : Option ℕ) (nodes : ℕ → Status) (timers : ℕ → Option ℕ)
      (fds : List FdEntry) (tasks : List Task) : Type 0 where
    pub opened : (fd : ℕ) × (epollfd ≡ some fd)
    pub addresses : Distinct (λ t. t.addr) tasks
    pub timers_apart : Distinct (λ t. t.timer) tasks
    pub watched : All (Watched fds) tasks
    pub tracked : IsTracked nodes timers fds
    pub below : (node fd : ℕ) → timers node ≡ some fd → node ≤ 126
    pub owned : AllOwned timers fds tasks
    pub params : All HasParam tasks
    pub safe : All (λ t. IsSafe t.callback) tasks

  abbrev pub IsLive : {Ins : Type 0} → World Ins → Type 0
  IsLive w = IsSound w.epollfd w.nodes w.timers w.fds w.tasks

  pub IsLive-IsLinked : {Ins : Type 0} (w : World Ins) → IsLive w → IsLinked w
  IsLive-IsLinked w h = record {
    addresses = h.addresses;
    timers_apart = h.timers_apart;
    watched = h.watched;
  }

  -- What a function that is called back may do: start further requests. Nodes and their timers are
  -- changed by heartbeats alone.
  pub record Extends {Ins : Type 0} (w w' : World Ins) : Type 0 where
    pub tasks : List Task
    pub fds : List FdEntry
    pub tasks_after : w'.tasks ≡ w.tasks ++ tasks
    pub fds_after : w'.fds ≡ w.fds ++ fds
    pub live : IsLive w'
