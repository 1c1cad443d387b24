-- ===== src/Io/Write.antt =====
-- The writes of one element in src/libwlmio/io.c: `wlmio_vpe6030_write`, `wlmio_vpe6050_write`,
-- `wlmio_vpe6070_write` and the `configure` functions of the 6040, 6050, 6090 and 6190.
pub mod Half
pub mod Output
use libwlmio.Prelude.{
  List, Option, [], if◌then◌else◌, ltb, neg_einval, none, some, ℕ, ℤ, ◌==◌, ◌||◌, ◌∷◌,
}
use libwlmio.Wire.{le_bytes}
use libwlmio.State.{World, Canard, Callback}
use libwlmio.Register.Kind
use libwlmio.Requests.{is_null, node_id_max, wlmio_register_access}
use libwlmio.Io.{IoAnswers, channel, scalar, ℕ, List, Option, some, none}

-- "output", "mode", "type" and "enabled"
abbrev pub output_name : List ℕ
output_name = b'o' ∷ b'u' ∷ b't' ∷ b'p' ∷ b'u' ∷ b't' ∷ []

abbrev pub mode_name : List ℕ
mode_name = b'm' ∷ b'o' ∷ b'd' ∷ b'e' ∷ []

abbrev pub type_name : List ℕ
type_name = b't' ∷ b'y' ∷ b'p' ∷ b'e' ∷ []

abbrev pub enabled_name : List ℕ
enabled_name = b'e' ∷ b'n' ∷ b'a' ∷ b'b' ∷ b'l' ∷ b'e' ∷ b'd' ∷ []

-- v ? 1 : 0
abbrev pub flag : ℕ → ℕ
flag v = if v == 0 then 0 else 1

module _ {Ins : Type 0} (can : Canard Ins) (os : IoAnswers) where
  -- One element of `width` bytes.
  unfoldable pub write_scalar :
      Option (List ℕ)
      → ℕ
      → ℕ
      → ℕ
      → ℕ
      → Option Callback
      → Option ℕ
      → World Ins
      → Option (ℤ × World Ins)
  write_scalar name type width node_id v callback uparam w =
      wlmio_register_access can (os.requests 0) node_id name
        (some (scalar os.stack type (le_bytes width v))) none callback uparam w

  -- The functions that check the channel against `last`, the value against `top`, and the callback.
  -- Channels from `cases` on have no name.
  unfoldable pub configure_channel :
      List ℕ
      → ℕ
      → ℕ
      → ℕ
      → ℕ
      → ℕ
      → ℕ
      → Option Callback
      → Option ℕ
      → World Ins
      → Option (ℤ × World Ins)
  configure_channel name last cases top node_id ch v callback uparam w =
      if ltb node_id_max node_id || ltb last ch || ltb top v || is_null callback
      then some (neg_einval, w)
      else write_scalar (channel cases name ch) Kind.uint8 1 node_id v callback uparam w

  unfoldable pub write_output :
      ℕ → ℕ → ℕ → Option Callback → Option ℕ → World Ins → Option (ℤ × World Ins)
  write_output node_id ch v callback uparam w =
      if ltb node_id_max node_id || ltb 3 ch || is_null callback
      then some (neg_einval, w)
      else write_scalar (channel 4 output_name ch) Kind.uint16 2 node_id v callback uparam w

  unfoldable pub wlmio_vpe6030_write :
      ℕ → ℕ → ℕ → Option Callback → Option ℕ → World Ins → Option (ℤ × World Ins)
  wlmio_vpe6030_write node_id ch v callback uparam w =
      if ltb node_id_max node_id || ltb 3 ch
      then some (neg_einval, w)
      else write_scalar (channel 4 output_name ch) Kind.uint8 1 node_id (flag v) callback uparam w

  -- WLMIO_VPE6040_MODE_10V is 2.
  unfoldable pub wlmio_vpe6040_configure :
      ℕ → ℕ → ℕ → Option Callback → Option ℕ → World Ins → Option (ℤ × World Ins)
  wlmio_vpe6040_configure = configure_channel mode_name 3 4 2

  unfoldable pub wlmio_vpe6050_write :
      ℕ → ℕ → ℕ → Option Callback → Option ℕ → World Ins → Option (ℤ × World Ins)
  wlmio_vpe6050_write = write_output

  -- WLMIO_VPE6050_MODE_SINK is 1.
  unfoldable pub wlmio_vpe6050_configure :
      ℕ → ℕ → ℕ → Option Callback → Option ℕ → World Ins → Option (ℤ × World Ins)
  wlmio_vpe6050_configure = configure_channel mode_name 3 4 1

  unfoldable pub wlmio_vpe6070_write :
      ℕ → ℕ → ℕ → Option Callback → Option ℕ → World Ins → Option (ℤ × World Ins)
  wlmio_vpe6070_write = write_output

  -- WLMIO_VPE6090_TYPE_T is 8.
  unfoldable pub wlmio_vpe6090_configure :
      ℕ → ℕ → ℕ → Option Callback → Option ℕ → World Ins → Option (ℤ × World Ins)
  wlmio_vpe6090_configure = configure_channel type_name 5 6 8

  -- `enable` is not checked: as 0 or 1, it is within `top`.
  unfoldable pub wlmio_vpe6190_configure :
      ℕ → ℕ → ℕ → Option Callback → Option ℕ → World Ins → Option (ℤ × World Ins)
  wlmio_vpe6190_configure node_id ch enable callback uparam w =
      configure_channel enabled_name 3 3 1 node_id ch (flag enable) callback uparam w
