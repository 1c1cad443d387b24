-- ===== src/Io/Dispatch.antt =====
-- Which callback of src/libwlmio/io.c a task of the library calls.
pub mod Reply
use libwlmio.Prelude.{ℕ, Option, none, some}
use libwlmio.State.{World, Callback}
use libwlmio.Async.{Call}
use libwlmio.Io.Read
use libwlmio.Io.Settings

module _ {Ins : Type 0} where
  -- The callbacks take `uparam` for their context.
  with_context : (ℕ → World Ins → Option (World Ins)) → Option ℕ → World Ins → Option (World Ins)
  with_context f none w = none
  with_context f (some p) w = f p w

  -- A call through `callback`, where `call` is what the functions outside of io.c do.
  unfoldable pub io_call : Call Ins → Call Ins
  unfolding with_context
  io_call call (Callback.application n) r uparam w = call (Callback.application n) r uparam w
  io_call call Callback.sync_callback r uparam w = call Callback.sync_callback r uparam w
  io_call call Callback.vpe6010_read_callback r uparam w =
      with_context (Read.vpe6010_read_callback call r) uparam w
  io_call call Callback.vpe6040_read_callback r uparam w =
      with_context (Read.vpe6040_read_callback call r) uparam w
  io_call call Callback.vpe6060_read_callback r uparam w =
      with_context (Read.vpe6060_read_callback call r) uparam w
  io_call call Callback.vpe6060_configure_callback r uparam w =
      with_context (Settings.vpe6060_configure_callback call r) uparam w
  io_call call Callback.vpe6080_read_callback r uparam w =
      with_context (Read.vpe6080_read_callback call r) uparam w
  io_call call Callback.vpe6080_configure_callback r uparam w =
      with_context (Settings.vpe6080_configure_callback call r) uparam w
  io_call call Callback.node_set_sample_interval_callback r uparam w =
      with_context (Settings.node_set_sample_interval_callback call r) uparam w
  io_call call Callback.vpe6090_read_callback r uparam w =
      with_context (Read.vpe6090_read_callback call r) uparam w
  io_call call Callback.vpe6180_read_callback r uparam w =
      with_context (Read.vpe6180_read_callback call r) uparam w
  io_call call Callback.vpe6190_read_callback r uparam w =
      with_context (Read.vpe6190_read_callback call r) uparam w
