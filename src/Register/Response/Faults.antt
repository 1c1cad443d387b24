-- ===== src/Register/Response/Faults.antt =====
-- The replies that make `register_access_response_handler` leave its arrays.
use libwlmio.Prelude.{
  ◌↔◌, ℕ, ◌+◌, ◌≤◌, ◌<◌, ◌≡◌, ◌≢◌, inl, inr, List, none, some, arith, lt→ltb, Option-cases, length,
  length-drop, drop, get_or, ◌++◌, ◌-◌, Bool-cases, ltb, ◌∙◌, get_elem?_past, drop_all,
}
use native.Mathlib.Nat.{zero-add}
use native.Mathlib.Decide.{dec_lt}
use libwlmio.Wire.{Dsdl, IsBytes, get_u8_byte, copy_to_fits, copy_to_overflow, zeros, length-zeros}
use libwlmio.Register.Value.{register_value_length_width, length_widths}
use libwlmio.Register.Widths.{Widths-of}
use libwlmio.Register.Response.{read_value, read_response}

-- The value of a reply overruns the 256 bytes of `regr.value`.
read_value-none :
    (payload : List ℕ) (offset : ℕ)
    → offset + 256 < length payload
    → read_value payload offset ≡ none
unfolding read_value
read_value-none payload offset h = rw (lt→ltb offset (length payload) (omega arith)) (
    copy_to_overflow (zeros 256) 0 (drop offset payload)
      (omega (arith, length-zeros 256, length-drop offset payload)))

-- Otherwise it fits.
pub read_value-some :
    (payload : List ℕ) (offset : ℕ)
    → length payload ≤ offset + 256
    → read_value payload offset
      ≡ some (drop offset payload ++ drop (length payload - offset) (zeros 256))
unfolding read_value
read_value-some payload offset h = elim (Bool-cases (ltb offset (length payload))) [
  | inl more ↦ rw more (
      copy_to_fits (zeros 256) 0 (drop offset payload)
        (omega (arith, length-zeros 256, length-drop offset payload))
      ∙ rw (length-drop, zero-add))
  | inr rest ↦
      let past : length payload ≤ offset = ground arith in
      let none_left : length payload - offset ≡ 0 = omega arith in
      rw (rest, drop_all offset payload past, none_left)
]

width_none : (t : ℕ) → 15 ≤ t → register_value_length_width t ≡ none
unfolding register_value_length_width
width_none t h = get_elem?_past length_widths t h

lt_of_width : (t w : ℕ) → register_value_length_width t ≡ some w → t < 15
lt_of_width t w e = elim (dec_lt t 15) [
  | yes h ↦ h
  | no h ↦ absurd (cc (width_none t (omega arith)))
]

-- The reply has a type past the tables, or more than 256 bytes behind its length.
pub data Overruns (payload : List ℕ) : Type 0 where
  bad_type : 15 ≤ get_or payload 8 0 → Overruns payload
  long_value :
      (w : ℕ)
      → register_value_length_width (get_or payload 8 0) ≡ some w
      → 9 + w + 256 < length payload
      → Overruns payload

type_past : {t : ℕ} → register_value_length_width t ≡ none → 15 ≤ t
type_past {t} e = elim (dec_lt t 15) [
  | yes h ↦ absurd (cc (Widths-of t h).width_at)
  | no h ↦ omega arith
]

module _ (d : Dsdl) (payload : List ℕ) (bytes : IsBytes payload) where
  read_response_of_width :
      (w : ℕ)
      → register_value_length_width (get_or payload 8 0) ≡ some w
      → length payload ≤ 9 + w + 256
      → read_response d payload ≢ none
  unfolding read_response
  read_response_of_width w e h =
      rw (get_u8_byte d payload 8 bytes, e, read_value-some payload (9 + w) h) (λ p. cc)

  Overruns-faults : Overruns payload → read_response d payload ≡ none
  unfolding read_response
  Overruns-faults (bad_type h) = rw (get_u8_byte d payload 8 bytes, width_none _ h)
  Overruns-faults (long_value w e h) =
      rw (get_u8_byte d payload 8 bytes, e, read_value-none payload (9 + w) h)

  fault-Overruns : read_response d payload ≡ none → Overruns payload
  fault-Overruns p = elim (Option-cases (register_value_length_width (get_or payload 8 0))) [
    | inl e ↦ bad_type (type_past e)
    | inr (w, e) ↦ elim (dec_lt (9 + w + 256) (length payload)) [
      | yes h ↦ long_value w e h
      | no h ↦ absurd (read_response_of_width w e (omega arith) p)
    ]
  ]

  -- A reply makes the handler read past its tables or write past its buffer exactly when its type
  -- is none of the 15 or more than 256 bytes follow its length.
  pub read_response-none : (read_response d payload ≡ none) ↔ Overruns payload
  read_response-none = (fault-Overruns, Overruns-faults)
