-- ===== src/Register/Widths.antt =====
-- The two width tables against the limits of `validate_register_access`.
use libwlmio.Prelude.{
  ℕ, zero, suc, ◌*◌, ◌/◌, ◌^◌, ◌≤◌, ◌<◌, ◌≡◌, refl, Bool, true, false, ◌&&◌, ◌||◌, Option, none,
  some, arith, ltb, leb, ◌==◌, pos,
}
use libwlmio.Register.Kind
use libwlmio.Register.Value.{
  Reg, max_length, validate_register_access, register_value_bit_width, register_value_length_width,
}

abbrev tables_agree : ℕ → Option ℕ → Option ℕ → Bool
tables_agree t (some bits) (some width) =
    leb (max_length t * bits) 2048 && ((t == 0 || ltb (max_length t) (256 ^ width)) && leb width 2)
tables_agree t _ _ = false

abbrev row_agrees : ℕ → Bool
row_agrees t = tables_agree t (register_value_bit_width t) (register_value_length_width t)

-- The rows from the one before `rows` down to the first.
rows_agree : ℕ → Bool
rows_agree zero = true
rows_agree (suc t) = rows_agree t && row_agrees t

row_of_rows : (t rows : ℕ) → t < rows → rows_agree rows ≡ true → row_agrees t ≡ true
unfolding rows_agree
row_of_rows t zero below agree = absurd (omega arith)
row_of_rows t (suc last) below agree = ground (arith, row_of_rows t last)

fifteen_rows : rows_agree 15 ≡ true
unfolding rows_agree max_length register_value_bit_width register_value_length_width
fifteen_rows = refl

-- What the tables give for a type.
pub record Widths (t : ℕ) : Type 0 where
  pub bits : ℕ
  pub width : ℕ
  pub bits_at : register_value_bit_width t ≡ some bits
  pub width_at : register_value_length_width t ≡ some width
  pub value_fits : max_length t * bits ≤ 2048
  pub len_fits : 0 < t → max_length t < 256 ^ width
  pub narrow : width ≤ 2

read_tables :
    (t : ℕ) (b w : Option ℕ)
    → register_value_bit_width t ≡ b
    → register_value_length_width t ≡ w
    → tables_agree t b w ≡ true
    → Widths t
read_tables t (some bits) (some width) eb ew h = record {
  bits = bits;
  width = width;
  bits_at = eb;
  width_at = ew;
  value_fits = ground arith;
  len_fits = λ p. ground arith;
  narrow = ground arith;
}
read_tables t none w eb ew h = absurd (cc)
read_tables t (some bits) none eb ew h = absurd (cc)

-- Every type that the enumeration has is in both tables, with room for its longest value.
pub Widths-of : (t : ℕ) → t < 15 → Widths t
Widths-of t h = read_tables t _ _ refl refl (row_of_rows t 15 h fifteen_rows)

pub uint16_bits : register_value_bit_width Kind.uint16 ≡ some 16
unfolding register_value_bit_width
uint16_bits = refl

pub uint16_width : register_value_length_width Kind.uint16 ≡ some 1
unfolding register_value_length_width
uint16_width = refl

pub uint16_limit : max_length Kind.uint16 ≡ 128
unfolding max_length
uint16_limit = refl

-- The row of 16-bit numbers.
abbrev pub uint16_widths : Widths Kind.uint16
uint16_widths = record {
  bits = 16;
  width = 1;
  bits_at = uint16_bits;
  width_at = uint16_width;
  value_fits = omega (arith, uint16_limit);
  len_fits = λ _. omega (arith, uint16_limit);
  narrow = omega arith;
}

-- Exactly the values that `validate_register_access` accepts.
pub valid_iff :
    (r : Reg)
    → (validate_register_access (some r) ≡ pos 0 → (r.type < 15) × (r.len ≤ max_length r.type))
      × (r.type < 15 → r.len ≤ max_length r.type → validate_register_access (some r) ≡ pos 0)
unfolding validate_register_access
valid_iff r = (λ h. ground arith, λ p q. ground arith)

-- The bytes of an accepted value, as `wlmio_register_access` counts them.
pub value_bytes_le : (t len : ℕ) (w : Widths t) → len ≤ max_length t → len * w.bits / 8 ≤ 256
value_bytes_le t len w h = grind (arith, w.value_fits)
