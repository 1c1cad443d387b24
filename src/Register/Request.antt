-- ===== src/Register/Request.antt =====
-- The request payload that `wlmio_register_access` of src/libwlmio/wlmio.c builds in 310 bytes:
-- the part between the check of its arguments and the push.
pub mod Format
pub mod RoundTrip
use libwlmio.Prelude.{
  ℕ, ◌*◌, ◌/◌, List, [], ◌∷◌, Option, none, some, ◌>>=◌, ◌>>◌, check, leb, ◌==◌, if◌then◌else◌, min,
  length, take,
}
use libwlmio.Wire.{le_bytes, emit, read_at}
use libwlmio.Register.Kind
use libwlmio.Register.Value.{Reg, register_value_bit_width, register_value_length_width}

-- malloc(310)
abbrev pub payload_size : ℕ
payload_size = 310

-- strnlen(name, 50): a name is given by its characters before the terminating NUL.
abbrev pub name_len : List ℕ → ℕ
name_len name = min 50 (length name)

type_byte : Option Reg → ℕ
type_byte none = Kind.empty
type_byte (some reg) = reg.type

-- Array length and register value.
write_value : List ℕ → Reg → Option (List ℕ)
write_value payload reg = do
  width ← register_value_length_width reg.type
  payload ← emit payload_size payload (le_bytes width reg.len)
  bits ← register_value_bit_width reg.type
  let bytes = reg.len * bits / 8
  check (leb bytes 256)
  value ← read_at reg.value 0 bytes
  emit payload_size payload value

write_register : List ℕ → Option Reg → Option (List ℕ)
write_register payload none = some payload
write_register payload (some reg) =
    if reg.type == Kind.empty then some payload else write_value payload reg

unfoldable pub request_payload : List ℕ → Option Reg → Option (List ℕ)
unfolding type_byte write_value write_register
request_payload name regw = do
  payload ← emit payload_size [] (name_len name ∷ [])
  payload ← emit payload_size payload (take (name_len name) name)
  payload ← emit payload_size payload (type_byte regw ∷ [])
  write_register payload regw
