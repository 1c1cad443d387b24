-- ===== src/Register/Request/RoundTrip.antt =====
-- What a node that reads a request by the layout of `uavcan.register.Access` finds.
use native.Mathlib.Nat.{mul_assoc}
use libwlmio.Prelude.{
  ℕ, ◌+◌, ◌*◌, ◌/◌, ◌%◌, ◌<◌, ◌≤◌, ◌≡◌, ◌≢◌, ◌∙◌, ap, inl, inr, List, [], ◌∷◌, Bool, Option, none,
  some, arith, length, drop, take, leb, ltb, ◌==◌, ◌&&◌, not, if◌then◌else◌, Bool-cases,
  take-append, drop-append, length-take, false, true, ==_iff, ==_refl, ne→==, sym,
}
use libwlmio.Wire.{le_value, le_bytes, length-le_bytes, le_value-le_bytes}
use libwlmio.Register.Kind
use libwlmio.Register.Value.{Reg, IsReg, max_length}
use libwlmio.Register.Widths.{Widths, value_bytes_le}
use libwlmio.Register.Layout.{length_bytes, element_bits, packed_bytes, bit_bits, Widths-layout}
use libwlmio.Register.Request.{name_len}
use libwlmio.Register.Request.Format.{value_format}

-- What a request says: the name, and the type, the number of elements and their bytes.
pub record Asked : Type 0 where
  pub name : List ℕ
  pub type : ℕ
  pub len : ℕ
  pub elements : List ℕ

-- The elements fill the rest of the request.
abbrev read_elements : List ℕ → ℕ → ℕ → List ℕ → Option Asked
read_elements name type len bytes =
    if length bytes == packed_bytes type len
    then some (record { name = name; type = type; len = len; elements = bytes })
    else none

abbrev read_body : List ℕ → ℕ → List ℕ → Option Asked
read_body name type body =
    if type == Kind.empty
    then some (record { name = name; type = type; len = 0; elements = [] })
    else if ltb Kind.float16 type
    then none
    else read_elements name type (le_value (take (length_bytes type) body))
        (drop (length_bytes type) body)

read_tag : List ℕ → List ℕ → Option Asked
read_tag name [] = none
read_tag name (type ∷ body) = read_body name type body

-- A request, read by the layout alone: a name behind its length, a type, and the value. None where
-- there are too few or too many bytes.
pub read_request : List ℕ → Option Asked
unfolding read_tag
read_request [] = none
read_request (n ∷ rest) = if leb n (length rest) then read_tag (take n rest) (drop n rest) else none

-- What a caller asks with `regw`: an empty value has no elements.
abbrev pub asked : List ℕ → Reg → Asked
asked name reg = record {
  name = take (name_len name) name;
  type = reg.type;
  len = if reg.type == Kind.empty then 0 else reg.len;
  elements = if reg.type == Kind.empty then [] else take (packed_bytes reg.type reg.len) reg.value;
}

-- A bit array of which the last byte is not full.
abbrev pub is_ragged : Reg → Bool
is_ragged reg = reg.type == Kind.bit && not (reg.len % 8 == 0)

eight_each : (len bits : ℕ) → bits % 8 ≡ 0 → len * bits / 8 ≡ (len * bits + 7) / 8
eight_each len bits h =
    let eight : bits ≡ bits / 8 * 8 = omega arith in
    let packed : len * bits ≡ len * (bits / 8) * 8 =
      ap (λ b. len * b) eight ∙ sym (mul_assoc len (bits / 8) 8) in
    omega (arith, packed)

packed_full :
    (reg : Reg)
    → (reg.type ≢ Kind.bit → element_bits reg.type % 8 ≡ 0)
    → is_ragged reg ≡ false
    → reg.len * element_bits reg.type / 8 ≡ packed_bytes reg.type reg.len
packed_full reg bytes full = elim (Bool-cases (reg.type == Kind.bit)) [
  | inl e ↦ rw ((==_iff reg.type Kind.bit).0 e, bit_bits) (ground arith)
  | inr e ↦ eight_each reg.len (element_bits reg.type) (bytes (ground arith))
]

-- The bits behind the last whole byte are not there.
missing :
    (reg : Reg)
    → is_ragged reg ≡ true
    → (reg.len * element_bits reg.type / 8 == packed_bytes reg.type reg.len) ≡ false
missing reg ragged =
    let bit : reg.type ≡ Kind.bit = ground arith in
    let rest : reg.len % 8 ≢ 0 = ground arith in
    let one : element_bits reg.type ≡ 1 = ap element_bits bit ∙ bit_bits in
    rw one (ne→== (reg.len * 1 / 8) ((reg.len * 1 + 7) / 8) (omega arith))

read_value :
    (name : List ℕ) (reg : Reg) (w : Widths reg.type)
    → IsReg reg
    → reg.type < 15
    → reg.type ≢ 0
    → reg.len ≤ max_length reg.type
    → read_elements name reg.type
        (le_value (take (length_bytes reg.type) (value_format reg w.bits w.width)))
        (drop (length_bytes reg.type) (value_format reg w.bits w.width))
      ≡ (if is_ragged reg
          then none
          else some (record {
            name = name;
            type = reg.type;
            len = reg.len;
            elements = take (packed_bytes reg.type reg.len) reg.value;
          }))
unfolding value_format
read_value name reg w r below named fits =
    let (same_bits, same_length, bytes) = Widths-layout reg.type w below named in
    let long : length (le_bytes w.width reg.len) ≡ length_bytes reg.type =
      length-le_bytes w.width reg.len ∙ same_length in
    let few : reg.len * element_bits reg.type / 8 ≤ 256 =
      rw (same_bits) at (value_bytes_le reg.type reg.len w fits) in
    let sent : length (take (reg.len * element_bits reg.type / 8) reg.value)
        ≡ reg.len * element_bits reg.type / 8 =
      length-take (reg.len * element_bits reg.type / 8) reg.value ∙ omega (arith, r.value_size) in
    rw
      (
        take-append (length_bytes reg.type) (le_bytes w.width reg.len)
            (take (reg.len * w.bits / 8) reg.value) long,
        drop-append (length_bytes reg.type) (le_bytes w.width reg.len)
            (take (reg.len * w.bits / 8) reg.value) long,
        le_value-le_bytes w.width reg.len (omega (arith, w.len_fits (omega arith))),
        same_bits,
        sent,
      )
      (elim (Bool-cases (is_ragged reg)) [
        | inl ragged ↦ rw (ragged, missing reg ragged)
        | inr full ↦
            rw (full, ← packed_full reg bytes full)
              (rw (==_refl (reg.len * element_bits reg.type / 8)))
      ])
