-- ===== src/Register/Request/Format.antt =====
-- The payload against the layout of a `uavcan.register.Access` request.
use libwlmio.Prelude.{
  ℕ, ◌+◌, ◌*◌, ◌/◌, ◌≤◌, ◌<◌, ◌≡◌, ◌∙◌, ap, inl, inr, List, [], ◌∷◌, ◌++◌, append_assoc, append-nil,
  Option, none, some, arith, Bool-cases, le→leb, ◌==◌, if◌then◌else◌, pos, length, length-append,
  length-take, take,
}
use libwlmio.Wire.{le_bytes, length-le_bytes, emit_fits, read_at_fits}
use libwlmio.Register.Kind
use libwlmio.Register.Value.{Reg, IsReg, max_length, validate_register_access}
use libwlmio.Register.Widths.{Widths, valid_iff, value_bytes_le}
use libwlmio.Register.Layout.{value_layout, Widths-layout}
use libwlmio.Register.Request.{
  payload_size, name_len, type_byte, write_value, write_register, request_payload,
}

-- A value on the bus: its type, then its length in elements and its packed elements.
unfoldable pub value_format : Reg → ℕ → ℕ → List ℕ
value_format reg bits width = le_bytes width reg.len ++ take (reg.len * bits / 8) reg.value

pub length-value_format :
    (reg : Reg) (w : Widths reg.type)
    → IsReg reg
    → reg.len ≤ max_length reg.type
    → length (value_format reg w.bits w.width) ≡ w.width + reg.len * w.bits / 8
unfolding value_format
length-value_format reg w h fits = omega (
  arith,
  length-append (le_bytes w.width reg.len) (take (reg.len * w.bits / 8) reg.value),
  length-le_bytes w.width reg.len,
  length-take (reg.len * w.bits / 8) reg.value,
  value_bytes_le reg.type reg.len w fits,
  h.value_size,
)

write_value-format :
    (payload : List ℕ) (reg : Reg) (w : Widths reg.type)
    → IsReg reg
    → reg.len ≤ max_length reg.type
    → length payload ≤ 52
    → write_value payload reg ≡ some (payload ++ value_format reg w.bits w.width)
unfolding write_value value_format
write_value-format payload reg w h fits room =
    let few : reg.len * w.bits / 8 ≤ 256 = value_bytes_le reg.type reg.len w fits in
    rw
      (
        w.width_at,
        emit_fits payload_size payload (le_bytes w.width reg.len)
            (omega (arith, length-le_bytes w.width reg.len, w.narrow)),
        w.bits_at,
        le→leb _ _ few,
        read_at_fits reg.value 0 (reg.len * w.bits / 8) (omega (arith, h.value_size)),
      )
      (emit_fits payload_size (payload ++ le_bytes w.width reg.len)
          (take (reg.len * w.bits / 8) reg.value)
          (omega (
            arith,
            w.narrow,
            length-append payload (le_bytes w.width reg.len),
            length-le_bytes w.width reg.len,
            length-take (reg.len * w.bits / 8) reg.value,
          ))
        ∙ ap some (append_assoc payload _ _))

-- The name, at most 50 characters of it behind their number, and the type.
abbrev pub request_head : List ℕ → ℕ → List ℕ
request_head name type = ((name_len name ∷ []) ++ take (name_len name) name) ++ (type ∷ [])

pub length-request_head :
    (name : List ℕ) (type : ℕ) → length (request_head name type) ≡ name_len name + 2
length-request_head name type = omega (
  arith,
  length-append ((name_len name ∷ []) ++ take (name_len name) name) (type ∷ []),
  length-take (name_len name) name,
)

head-format :
    (name : List ℕ) (regw : Option Reg)
    → request_payload name regw ≡ write_register (request_head name (type_byte regw)) regw
unfolding request_payload
head-format name regw = rw (
  emit_fits payload_size [] (name_len name ∷ []) (omega arith),
  emit_fits payload_size (name_len name ∷ []) (take (name_len name) name)
      (omega (arith, length-take (name_len name) name)),
  emit_fits payload_size ((name_len name ∷ []) ++ take (name_len name) name) (type_byte regw ∷ []) (
      omega (
        arith,
        length-append (name_len name ∷ []) (take (name_len name) name),
        length-take (name_len name) name,
      )),
)

-- A read request is the name and the empty type.
pub request_payload-read :
    (name : List ℕ) → request_payload name none ≡ some (request_head name Kind.empty)
unfolding write_register type_byte
request_payload-read name = head-format name none

abbrev pub value_part : (reg : Reg) → Widths reg.type → List ℕ
value_part reg w = if reg.type == Kind.empty then [] else value_format reg w.bits w.width

-- The tables lay a value out as it stands on the bus.
pub value_part-layout :
    (reg : Reg) (w : Widths reg.type) → reg.type < 15 → value_part reg w ≡ value_layout reg
unfolding value_format
value_part-layout reg w below = elim (Bool-cases (reg.type == Kind.empty)) [
  | inl e ↦ rw e
  | inr e ↦
      let (same_bits, same_length, _) = Widths-layout reg.type w below (ground arith) in
      rw (e, same_bits, same_length)
]

-- A write request of an accepted value never overruns the allocation nor fails the assertion, and
-- is the name, the type and the value.
pub request_payload-write :
    (name : List ℕ) (reg : Reg) (w : Widths reg.type)
    → IsReg reg
    → validate_register_access (some reg) ≡ pos 0
    → request_payload name (some reg) ≡ some (request_head name reg.type ++ value_part reg w)
unfolding write_register type_byte
request_payload-write name reg w h valid = elim (Bool-cases (reg.type == Kind.empty)) [
  | inl e ↦ head-format name (some reg) ∙ rw (e, write_register, append-nil)
  | inr e ↦
      head-format name (some reg)
      ∙ rw (e, write_register)
          (write_value-format (request_head name reg.type) reg w h ((valid_iff reg).0 valid).1
            (omega (arith, length-request_head name reg.type)))
]
