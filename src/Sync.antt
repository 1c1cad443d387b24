-- ===== src/Sync.antt =====
-- The wait of src/libwlmio/sync.c, and its four functions for the requests of the library.
pub mod Modules
pub mod Waiting
pub mod Timeout
pub mod Access
pub mod Steady
use libwlmio.Prelude.{
  ℕ, ℤ, pos, is_neg, Bool, true, false, List, [], ◌∷◌, Option, none, some, ◌>>=◌, if◌then◌else◌,
}
use libwlmio.Wire.{Dsdl}
use libwlmio.State.{World, Canard, Callback, sync_callback}
use libwlmio.Register.{Reg}
use libwlmio.Async.{Call}
use libwlmio.Requests.{
  RequestAnswers, wlmio_get_node_info, wlmio_register_list, wlmio_register_access,
  wlmio_execute_command,
}
use libwlmio.Heartbeat.{StatusCall}
use libwlmio.Io.Dispatch.{io_call}
use libwlmio.Events.{Event, wlmio_tick}

-- One round of `while(!sync_flag)`: what its call of `wlmio_tick` meets once
-- `wlmio_wait_for_event` has returned.
pub record Round : Type 0 where
  pub room : ℕ
  pub events : List Event

module _ {Ins : Type 0} where
  -- A call through a function pointer, where `call` is what the functions outside of sync.c do.
  unfoldable pub sync_call : Call Ins → Call Ins
  sync_call call Callback.sync_callback r uparam w =
      some (record w { sync_return = r; sync_flag = true })
  sync_call call callback r uparam w = call callback r uparam w

  -- What the tasks of the library call, where `call` is what the functions of the application do.
  unfoldable pub library_call : Call Ins → Call Ins
  unfolding io_call sync_call
  library_call call = io_call (sync_call call)

  module _ (can : Canard Ins) (d : Dsdl) (call : Call Ins) (status_call : StatusCall Ins) where
    -- The loop and what stands behind it: the result, or none where it still waits at the end of
    -- the rounds.
    unfoldable pub wait : List Round → World Ins → Option (Option ℤ × World Ins)
    wait [] w = some (if w.sync_flag then some w.sync_return else none, w)
    wait (round ∷ rest) w =
        let waited =
          wlmio_tick can d call status_call round.room round.events w >>= λ (r, w). wait rest w in
        if w.sync_flag then some (some w.sync_return, w) else waited

    wait_unless : List Round → ℤ × World Ins → Option (Option ℤ × World Ins)
    unfolding wait
    wait_unless rounds (r, w) = if is_neg r then some (some r, w) else wait rounds w

    -- The body that the functions share: `start` is their request, with `sync_callback`.
    unfoldable pub run_sync :
        (World Ins → Option (ℤ × World Ins))
        → List Round
        → World Ins
        → Option (Option ℤ × World Ins)
    unfolding wait_unless
    run_sync start rounds w = start (record w { sync_flag = false }) >>= wait_unless rounds

module _ {Ins : Type 0} (can : Canard Ins) (d : Dsdl) (call : Call Ins)
    (status_call : StatusCall Ins) (os : RequestAnswers) where
  unfoldable pub wlmio_get_node_info_sync :
      ℕ → Option ℕ → List Round → World Ins → Option (Option ℤ × World Ins)
  wlmio_get_node_info_sync node_id node_info rounds w =
      run_sync can d call status_call
        (wlmio_get_node_info can os node_id node_info (some sync_callback) none) rounds w

  unfoldable pub wlmio_register_list_sync :
      ℕ → ℕ → Option ℕ → List Round → World Ins → Option (Option ℤ × World Ins)
  wlmio_register_list_sync node_id index name rounds w =
      run_sync can d call status_call
        (wlmio_register_list can os node_id index name (some sync_callback) none) rounds w

  unfoldable pub wlmio_register_access_sync :
      ℕ
      → Option (List ℕ)
      → Option Reg
      → Option ℕ
      → List Round
      → World Ins
      → Option (Option ℤ × World Ins)
  wlmio_register_access_sync node_id name regw regr rounds w =
      run_sync can d call status_call
        (wlmio_register_access can os node_id name regw regr (some sync_callback) none) rounds w

  unfoldable pub wlmio_execute_command_sync :
      ℕ → ℕ → Option (List ℕ) → ℕ → List Round → World Ins → Option (Option ℤ × World Ins)
  wlmio_execute_command_sync node_id command param param_len rounds w =
      run_sync can d call status_call
        (wlmio_execute_command can os node_id command param param_len (some sync_callback) none)
        rounds w
