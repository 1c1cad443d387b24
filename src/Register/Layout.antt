-- ===== src/Register/Layout.antt =====
-- How a value of `uavcan.register.Value` stands on the bus, without the tables of
-- src/libwlmio/wlmio.c: an array of at most 2048 bits, its elements packed behind their number.
use libwlmio.Prelude.{
  ℕ, zero, suc, ◌+◌, ◌*◌, ◌/◌, ◌%◌, ◌<◌, ◌≡◌, ◌≢◌, refl, Bool, true, false, ◌&&◌, ◌||◌, Option,
  some, arith, ltb, ◌==◌, if◌then◌else◌, List, [], ◌++◌, take,
}
use libwlmio.Wire.{le_bytes}
use libwlmio.Register.Kind
use libwlmio.Register.Value.{Reg, register_value_bit_width, register_value_length_width}
use libwlmio.Register.Widths.{Widths}

-- The bits of an element: characters and bytes, truth values, and numbers.
unfoldable pub element_bits : ℕ → ℕ
element_bits t =
    if t == Kind.string || t == Kind.unstructured
    then 8
    else if t == Kind.bit
    then 1
    else if t == Kind.int64 || t == Kind.uint64 || t == Kind.float64
    then 64
    else if t == Kind.int32 || t == Kind.uint32 || t == Kind.float32
    then 32
    else if t == Kind.int16 || t == Kind.uint16 || t == Kind.float16
    then 16
    else 8

-- The number of elements takes the fewest whole bytes that hold the largest number, 2048 bits' worth.
unfoldable pub length_bytes : ℕ → ℕ
unfolding element_bits
length_bytes t = if ltb (2048 / element_bits t) 256 then 1 else 2

-- The whole bytes that so many elements take.
abbrev pub packed_bytes : ℕ → ℕ → ℕ
packed_bytes t len = (len * element_bits t + 7) / 8

-- A value on the bus: the number of elements, and the whole bytes of those. An empty one has neither.
abbrev pub value_layout : Reg → List ℕ
value_layout reg =
    if reg.type == Kind.empty
    then []
    else le_bytes (length_bytes reg.type) reg.len
      ++ take (reg.len * element_bits reg.type / 8) reg.value

-- Every element takes whole bytes, or eight of them do.
abbrev whole : ℕ → Bool
whole t = t == Kind.bit || element_bits t % 8 == 0

abbrev same_widths : ℕ → Option ℕ → Option ℕ → Bool
same_widths t (some bits) (some width) =
    t == 0 || bits == element_bits t && (width == length_bytes t && whole t)
same_widths t _ _ = false

-- The rows from the one before `rows` down to the first.
rows_same : ℕ → Bool
rows_same zero = true
rows_same (suc t) =
    rows_same t && same_widths t (register_value_bit_width t) (register_value_length_width t)

row_of_rows :
    (t rows : ℕ)
    → t < rows
    → rows_same rows ≡ true
    → same_widths t (register_value_bit_width t) (register_value_length_width t) ≡ true
unfolding rows_same
row_of_rows t zero below same = absurd (omega arith)
row_of_rows t (suc last) below same = ground (arith, row_of_rows t last)

fifteen_rows : rows_same 15 ≡ true
unfolding rows_same element_bits length_bytes register_value_bit_width register_value_length_width
fifteen_rows = refl

read_row :
    (t : ℕ) (w : Widths t)
    → t ≢ 0
    → same_widths t (some w.bits) (some w.width) ≡ true
    → (w.bits ≡ element_bits t)
      × (w.width ≡ length_bytes t)
      × (t ≢ Kind.bit → element_bits t % 8 ≡ 0)
read_row t w named h = (ground arith, ground arith, λ p. ground arith)

-- The tables give just these widths, for every type but the empty one.
pub Widths-layout :
    (t : ℕ) (w : Widths t)
    → t < 15
    → t ≢ 0
    → (w.bits ≡ element_bits t)
      × (w.width ≡ length_bytes t)
      × (t ≢ Kind.bit → element_bits t % 8 ≡ 0)
Widths-layout t w below named =
    read_row t w named (rw (w.bits_at, w.width_at) at (row_of_rows t 15 below fifteen_rows))

pub bit_bits : element_bits Kind.bit ≡ 1
unfolding element_bits
bit_bits = refl
