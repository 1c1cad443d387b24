-- ===== src/Io/Write/Half.antt =====
-- The value of one 16-bit number that `wlmio_vpe6050_write` and `wlmio_node_set_sample_interval` of
-- src/libwlmio/io.c write, on a stack with any bytes behind it.
use libwlmio.Prelude.{
  ℕ, ◌≡◌, refl, List, ◌∷◌, some, pos, arith, length, length-append, length-drop, drop,
}
use libwlmio.Wire.{
  IsBytes, le_bytes, length-le_bytes, le_bytes-IsBytes, IsBytes-append, IsBytes-drop,
}
use libwlmio.Register.{Reg, IsReg, validate_register_access}
use libwlmio.Register.Kind
use libwlmio.Register.Widths.{uint16_widths}
use libwlmio.Register.Request.Format.{value_part, value_format}
use libwlmio.Io.{scalar}

module _ (stack : List ℕ) (size : length stack ≡ 256) (bytes : IsBytes stack) (v : ℕ) where
  abbrev pub half : Reg
  half = scalar stack Kind.uint16 (le_bytes 2 v)

  pub half-IsReg : IsReg half
  half-IsReg = record {
    type_fits = omega arith;
    len_fits = omega arith;
    value_size = omega (
      arith,
      length-append (le_bytes 2 v) (drop (length (le_bytes 2 v)) stack),
      length-drop (length (le_bytes 2 v)) stack,
      length-le_bytes 2 v,
    );
    value_bytes =
        IsBytes-append (le_bytes 2 v) (drop (length (le_bytes 2 v)) stack) (le_bytes-IsBytes 2 v)
          (IsBytes-drop (length (le_bytes 2 v)) stack bytes);
  }

  pub half-valid : validate_register_access (some half) ≡ pos 0
  unfolding validate_register_access
  half-valid = refl

  pub half_part : value_part half uint16_widths ≡ 1 ∷ le_bytes 2 v
  unfolding value_format le_bytes
  half_part = refl
