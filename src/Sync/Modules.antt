-- ===== src/Sync/Modules.antt =====
-- The functions of src/libwlmio/sync.c for the I/O modules.
use libwlmio.Prelude.{ℕ, ℤ, List, Option, none, some}
use libwlmio.Wire.{Dsdl}
use libwlmio.State.{World, Canard, sync_callback}
use libwlmio.Async.{Call}
use libwlmio.Heartbeat.{StatusCall}
use libwlmio.Io.{IoAnswers}
use libwlmio.Io.Read.{
  wlmio_vpe6010_read, wlmio_vpe6040_read, wlmio_vpe6060_read, wlmio_vpe6080_read,
  wlmio_vpe6090_read, wlmio_vpe6180_read, wlmio_vpe6190_read,
}
use libwlmio.Io.Write.{
  wlmio_vpe6030_write, wlmio_vpe6040_configure, wlmio_vpe6050_write, wlmio_vpe6050_configure,
  wlmio_vpe6070_write, wlmio_vpe6090_configure, wlmio_vpe6190_configure,
}
use libwlmio.Io.Settings.{
  wlmio_vpe6060_configure, wlmio_vpe6080_configure, wlmio_node_set_sample_interval,
}
use libwlmio.Sync.{Round, run_sync}

module _ {Ins : Type 0} (can : Canard Ins) (d : Dsdl) (call : Call Ins)
    (status_call : StatusCall Ins) (os : IoAnswers) where
  unfoldable pub wlmio_vpe6010_read_sync :
      ℕ → Option ℕ → List Round → World Ins → Option (Option ℤ × World Ins)
  wlmio_vpe6010_read_sync node_id dst rounds w =
      run_sync can d call status_call
        (wlmio_vpe6010_read can os node_id dst (some sync_callback) none) rounds w

  unfoldable pub wlmio_vpe6030_write_sync :
      ℕ → ℕ → ℕ → List Round → World Ins → Option (Option ℤ × World Ins)
  wlmio_vpe6030_write_sync node_id ch v rounds w =
      run_sync can d call status_call
        (wlmio_vpe6030_write can os node_id ch v (some sync_callback) none) rounds w

  unfoldable pub wlmio_vpe6040_read_sync :
      ℕ → ℕ → Option ℕ → List Round → World Ins → Option (Option ℤ × World Ins)
  wlmio_vpe6040_read_sync node_id ch v rounds w =
      run_sync can d call status_call
        (wlmio_vpe6040_read can os node_id ch v (some sync_callback) none) rounds w

  unfoldable pub wlmio_vpe6040_configure_sync :
      ℕ → ℕ → ℕ → List Round → World Ins → Option (Option ℤ × World Ins)
  wlmio_vpe6040_configure_sync node_id ch mode rounds w =
      run_sync can d call status_call
        (wlmio_vpe6040_configure can os node_id ch mode (some sync_callback) none) rounds w

  unfoldable pub wlmio_vpe6050_write_sync :
      ℕ → ℕ → ℕ → List Round → World Ins → Option (Option ℤ × World Ins)
  wlmio_vpe6050_write_sync node_id ch v rounds w =
      run_sync can d call status_call
        (wlmio_vpe6050_write can os node_id ch v (some sync_callback) none) rounds w

  unfoldable pub wlmio_vpe6050_configure_sync :
      ℕ → ℕ → ℕ → List Round → World Ins → Option (Option ℤ × World Ins)
  wlmio_vpe6050_configure_sync node_id ch mode rounds w =
      run_sync can d call status_call
        (wlmio_vpe6050_configure can os node_id ch mode (some sync_callback) none) rounds w

  unfoldable pub wlmio_vpe6060_read_sync :
      ℕ → ℕ → Option ℕ → List Round → World Ins → Option (Option ℤ × World Ins)
  wlmio_vpe6060_read_sync node_id ch v rounds w =
      run_sync can d call status_call
        (wlmio_vpe6060_read can os node_id ch v (some sync_callback) none) rounds w

  unfoldable pub wlmio_vpe6060_configure_sync :
      ℕ → ℕ → ℕ → ℕ → ℕ → List Round → World Ins → Option (Option ℤ × World Ins)
  wlmio_vpe6060_configure_sync node_id ch mode polarity bias rounds w =
      run_sync can d call status_call
        (wlmio_vpe6060_configure can os node_id ch mode polarity bias (some sync_callback) none)
        rounds w

  unfoldable pub wlmio_vpe6070_write_sync :
      ℕ → ℕ → ℕ → List Round → World Ins → Option (Option ℤ × World Ins)
  wlmio_vpe6070_write_sync node_id ch v rounds w =
      run_sync can d call status_call
        (wlmio_vpe6070_write can os node_id ch v (some sync_callback) none) rounds w

  unfoldable pub wlmio_vpe6080_read_sync :
      ℕ → ℕ → Option ℕ → List Round → World Ins → Option (Option ℤ × World Ins)
  wlmio_vpe6080_read_sync node_id ch v rounds w =
      run_sync can d call status_call
        (wlmio_vpe6080_read can os node_id ch v (some sync_callback) none) rounds w

  unfoldable pub wlmio_vpe6080_configure_sync :
      ℕ → ℕ → ℕ → ℕ → ℕ → List Round → World Ins → Option (Option ℤ × World Ins)
  wlmio_vpe6080_configure_sync node_id ch enabled beta t0 rounds w =
      run_sync can d call status_call
        (wlmio_vpe6080_configure can os node_id ch enabled beta t0 (some sync_callback) none) rounds
        w

  unfoldable pub wlmio_node_set_sample_interval_sync :
      ℕ → ℕ → List Round → World Ins → Option (Option ℤ × World Ins)
  wlmio_node_set_sample_interval_sync node_id sample_interval rounds w =
      run_sync can d call status_call
        (wlmio_node_set_sample_interval can os node_id sample_interval (some sync_callback) none)
        rounds w

  unfoldable pub wlmio_vpe6090_read_sync :
      ℕ → ℕ → Option ℕ → List Round → World Ins → Option (Option ℤ × World Ins)
  wlmio_vpe6090_read_sync node_id ch v rounds w =
      run_sync can d call status_call
        (wlmio_vpe6090_read can os node_id ch v (some sync_callback) none) rounds w

  unfoldable pub wlmio_vpe6090_configure_sync :
      ℕ → ℕ → ℕ → List Round → World Ins → Option (Option ℤ × World Ins)
  wlmio_vpe6090_configure_sync node_id ch type rounds w =
      run_sync can d call status_call
        (wlmio_vpe6090_configure can os node_id ch type (some sync_callback) none) rounds w

  unfoldable pub wlmio_vpe6180_read_sync :
      ℕ → ℕ → Option ℕ → List Round → World Ins → Option (Option ℤ × World Ins)
  wlmio_vpe6180_read_sync node_id ch v rounds w =
      run_sync can d call status_call
        (wlmio_vpe6180_read can os node_id ch v (some sync_callback) none) rounds w

  unfoldable pub wlmio_vpe6190_configure_sync :
      ℕ → ℕ → ℕ → List Round → World Ins → Option (Option ℤ × World Ins)
  wlmio_vpe6190_configure_sync node_id ch enable rounds w =
      run_sync can d call status_call
        (wlmio_vpe6190_configure can os node_id ch enable (some sync_callback) none) rounds w

  unfoldable pub wlmio_vpe6190_read_sync :
      ℕ → ℕ → Option ℕ → List Round → World Ins → Option (Option ℤ × World Ins)
  wlmio_vpe6190_read_sync node_id ch v rounds w =
      run_sync can d call status_call
        (wlmio_vpe6190_read can os node_id ch v (some sync_callback) none) rounds w
