-- ===== src/Register/Response.antt =====
-- What `register_access_response_handler` of src/libwlmio/wlmio.c reads of a reply.
pub mod Faults
pub mod RoundTrip
use libwlmio.Prelude.{
  ℕ, ◌+◌, ◌*◌, List, Option, some, ◌>>=◌, ltb, ◌==◌, if◌then◌else◌, ℤ, pos, is_zero, neg_eproto,
  neg_enoent, length, drop,
}
use libwlmio.Wire.{Dsdl, copy_to, zeros}
use libwlmio.Register.Kind
use libwlmio.Register.Value.{Reg, validate_register_access, register_value_length_width}

-- What follows the length goes to the front of `regr.value`, which is zero before.
pub read_value : List ℕ → ℕ → Option (List ℕ)
read_value payload offset =
    if ltb offset (length payload)
    then copy_to (zeros 256) 0 (drop offset payload)
    else some (zeros 256)

pub response_code : Reg → ℤ
response_code regr =
    if is_zero (validate_register_access (some regr))
    then (if regr.type == Kind.empty then neg_enoent else pos 0)
    else neg_eproto

-- The 8 bytes before the type hold a timestamp and two flags. The value goes to the caller
-- whatever the result is.
unfoldable pub read_response : Dsdl → List ℕ → Option (ℤ × Reg)
unfolding read_value response_code
read_response d payload = do
  let type = d.get_u8 payload (8 * 8) 8
  width ← register_value_length_width type
  let len = d.get_u16 payload (9 * 8) (width * 8)
  value ← read_value payload (9 + width)
  let regr : Reg = record { type = type; len = len; value = value }
  some (response_code regr, regr)
