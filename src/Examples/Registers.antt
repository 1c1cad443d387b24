-- ===== src/Examples/Registers.antt =====
-- Register values: a pair of 16-bit numbers, written to a node and read back.
use libwlmio.Prelude.{
  ℕ, zero, suc, ◌≡◌, refl, ◌↔◌, List, [], ◌∷◌, ◌++◌, none, some, arith, pos, length,
}
use libwlmio.Wire.{
  IsBytes, IsBytes-append, le_value, le_bytes, emit, read_at, copy_to, zeros, length-zeros,
  le_value, emit, copy_to, read_at, le_bytes,
}
use libwlmio.Register.{
  Reg, IsReg, validate_register_access, register_value_bit_width, register_value_length_width,
}
use libwlmio.Register.Kind
use libwlmio.Register.Widths.{uint16_widths}
use libwlmio.Register.Request.{request_payload}
use libwlmio.Register.Request.Format.{value_format}
use libwlmio.Register.Response.{read_response}
use libwlmio.Register.Response.Faults.{Overruns, read_response-none}
use libwlmio.Register.Response.RoundTrip.{received, read_response-value_format}
use libwlmio.Examples.Setup.{plain}

abbrev pub pair : Reg
pair = record { type = Kind.uint16; len = 2; value = 1 ∷ 2 ∷ 3 ∷ 4 ∷ zeros 252 }

pub zeros-IsBytes : (n : ℕ) → IsBytes (zeros n)
unfolding zeros
zeros-IsBytes zero = tt
zeros-IsBytes (suc n) = (omega arith, zeros-IsBytes n)

pub pair-IsReg : IsReg pair
pair-IsReg = record {
  type_fits = omega arith;
  len_fits = omega arith;
  value_size = omega (arith, length-zeros 252);
  value_bytes = IsBytes-append (1 ∷ 2 ∷ 3 ∷ 4 ∷ []) (zeros 252) (omega arith) (zeros-IsBytes 252);
}

pub pair-valid : validate_register_access (some pair) ≡ pos 0
unfolding validate_register_access
pair-valid = refl

-- "ch1"
abbrev pub name : List ℕ
name = b'c' ∷ b'h' ∷ b'1' ∷ []

abbrev pub reply : List ℕ
reply = (0 ∷ 0 ∷ 0 ∷ 0 ∷ 0 ∷ 0 ∷ 0 ∷ 3 ∷ []) ++ (Kind.uint16 ∷ value_format pair 16 1)

read_response-value_format_example :
    read_response plain reply ≡ some (pos 0, received pair uint16_widths)
read_response-value_format_example =
    read_response-value_format plain pair uint16_widths pair-IsReg pair-valid (omega arith) reply
      refl

-- The request and the reply, byte for byte.
request_bytes :
    request_payload name (some pair) ≡ some (3 ∷ 99 ∷ 104 ∷ 49 ∷ 10 ∷ 2 ∷ 1 ∷ 2 ∷ 3 ∷ 4 ∷ [])
unfolding request_payload emit read_at le_bytes register_value_bit_width register_value_length_width
    zeros
request_bytes = refl

-- A reply whose type is 15.
abbrev strange : List ℕ
strange = 0 ∷ 0 ∷ 0 ∷ 0 ∷ 0 ∷ 0 ∷ 0 ∷ 0 ∷ 15 ∷ []

read_response-none_example : (read_response plain strange ≡ none) ↔ Overruns strange
read_response-none_example = read_response-none plain strange (omega arith)

strange_faults : read_response plain strange ≡ none
unfolding read_response le_value register_value_length_width
strange_faults = refl

-- A reply of 64 numbers of 32 bits, with one byte of padding: it fits the 267 bytes that the library
-- subscribes to, and 257 bytes follow the length.
abbrev full_reply : List ℕ
full_reply = (0 ∷ 0 ∷ 0 ∷ 0 ∷ 0 ∷ 0 ∷ 0 ∷ 3 ∷ Kind.uint32 ∷ 64 ∷ []) ++ zeros 257

full_reply_size : length full_reply ≡ 267
full_reply_size = omega (arith, length-zeros 257)

full_reply_faults : read_response plain full_reply ≡ none
unfolding read_response le_value register_value_length_width copy_to zeros
full_reply_faults = refl
