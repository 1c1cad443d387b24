-- ===== src/Register/Value.antt =====
-- `struct wlmio_register_access`, the widths of its types, and `validate_register_access`.
use libwlmio.Prelude.{
  ℕ, ◌<◌, ◌≡◌, ◌||◌, List, [], ◌∷◌, Option, none, some, ltb, ◌==◌, if◌then◌else◌, ℤ, pos,
  neg_einval, length, get_elem?,
}
use libwlmio.Wire.{IsBytes, zeros}
use libwlmio.Register.Kind

-- struct wlmio_register_access
pub record Reg : Type 0 where
  pub type : ℕ
  pub len : ℕ
  pub value : List ℕ

-- What the C types say of such a value: uint8_t type, uint16_t length, uint8_t value[256].
pub record IsReg (r : Reg) : Type 0 where
  pub type_fits : r.type < 256
  pub len_fits : r.len < 65536
  pub value_size : length r.value ≡ 256
  pub value_bytes : IsBytes r.value

-- { .type = WLMIO_REGISTER_VALUE_EMPTY, .length = 0U, .value = { 0 } }
abbrev pub zero_reg : Reg
zero_reg = record { type = Kind.empty; len = 0; value = zeros 256 }

-- The `switch` of `validate_register_access`.
unfoldable pub max_length : ℕ → ℕ
max_length t =
    if t == Kind.string || t == Kind.unstructured || t == Kind.int8 || t == Kind.uint8
    then 256
    else if t == Kind.bit
    then 2048
    else if t == Kind.int64 || t == Kind.uint64 || t == Kind.float64
    then 32
    else if t == Kind.int32 || t == Kind.uint32 || t == Kind.float32
    then 64
    else if t == Kind.int16 || t == Kind.uint16 || t == Kind.float16
    then 128
    else 65535

-- The argument is a pointer, `none` for NULL.
unfoldable pub validate_register_access : Option Reg → ℤ
unfolding max_length
validate_register_access none = neg_einval
validate_register_access (some reg) =
    if ltb Kind.float16 reg.type
    then neg_einval
    else if ltb (max_length reg.type) reg.len
    then neg_einval
    else pos 0

abbrev pub bit_widths : List ℕ
bit_widths = 0 ∷ 8 ∷ 8 ∷ 1 ∷ 64 ∷ 32 ∷ 16 ∷ 8 ∷ 64 ∷ 32 ∷ 16 ∷ 8 ∷ 64 ∷ 32 ∷ 16 ∷ []

abbrev pub length_widths : List ℕ
length_widths = 0 ∷ 2 ∷ 2 ∷ 2 ∷ 1 ∷ 1 ∷ 1 ∷ 2 ∷ 1 ∷ 1 ∷ 1 ∷ 2 ∷ 1 ∷ 1 ∷ 1 ∷ []

-- register_value_bit_width[t] and register_value_length_width[t]: a read past the 15 entries is a
-- fault.
unfoldable pub register_value_bit_width : ℕ → Option ℕ
register_value_bit_width t = get_elem? bit_widths t

unfoldable pub register_value_length_width : ℕ → Option ℕ
register_value_length_width t = get_elem? length_widths t
