-- ===== src/Register/Response/RoundTrip.antt =====
-- What `register_access_response_handler` reads of a reply against what the node put there.
use libwlmio.Prelude.{
  ℕ, zero, suc, ◌+◌, ◌*◌, ◌/◌, ◌%◌, ◌^◌, ◌≤◌, ◌<◌, ◌≡◌, ◌∙◌, sym, ap, List, ◌∷◌, ◌++◌, some, arith,
  pos, length, drop, take, drop-drop, ◌-◌, drop-append, length-drop,
}
use libwlmio.Wire.{Dsdl, le_value, le_bytes, zeros, le_value-le_bytes-append, length-le_bytes}
use libwlmio.Register.Value.{Reg, IsReg, validate_register_access, max_length}
use libwlmio.Register.Widths.{Widths, valid_iff, value_bytes_le}
use libwlmio.Register.Request.Format.{value_format, length-value_format}
use libwlmio.Register.Response.{read_response, response_code}
use libwlmio.Register.Response.Faults.{read_value-some}

-- A length of one or two bytes, read as `width << 3` bits.
read_length :
    (w len : ℕ) (rest : List ℕ)
    → w ≤ 2
    → len < 256 ^ w
    → le_value (le_bytes w len ++ rest) % 2 ^ (w * 8) ≡ len
read_length zero len rest h fits = omega arith
read_length (suc zero) len rest h fits = omega (arith, le_value-le_bytes-append 1 len rest)
read_length (suc (suc zero)) len rest h fits = omega (arith, le_value-le_bytes-append 2 len rest)
read_length (suc (suc (suc w))) len rest h fits = absurd (omega arith)

response_code-valid :
    (reg : Reg)
    → validate_register_access (some reg) ≡ pos 0
    → 0 < reg.type
    → response_code reg ≡ pos 0
unfolding response_code
response_code-valid reg valid h = rw valid (ground arith)

-- The value on the bus as the buffer holds it, zeros behind it.
abbrev pub received : (reg : Reg) → Widths reg.type → Reg
received reg w = record reg {
  value = take (reg.len * w.bits / 8) reg.value ++ drop (reg.len * w.bits / 8) (zeros 256);
}

module _ (d : Dsdl) (reg : Reg) (w : Widths reg.type) (r : IsReg reg)
    (valid : validate_register_access (some reg) ≡ pos 0) (named : 0 < reg.type) where
  module _ (payload : List ℕ)
      (at_type : drop 8 payload ≡ reg.type ∷ value_format reg w.bits w.width) where
    at_value : drop 9 payload ≡ value_format reg w.bits w.width
    at_value = sym (drop-drop 1 8 payload) ∙ ap (drop 1) at_type

    type_read : d.get_u8 payload (8 * 8) 8 ≡ reg.type
    unfolding le_value
    type_read = d.get_u8_lem payload 8 8 (omega arith) ∙ rw at_type (omega (arith, r.type_fits))

    fits : reg.len ≤ max_length reg.type
    fits = ((valid_iff reg).0 valid).1

    len_read : d.get_u16 payload (9 * 8) (w.width * 8) ≡ reg.len
    unfolding value_format
    len_read =
        d.get_u16_lem payload 9 (w.width * 8) (omega (arith, w.narrow))
        ∙ rw at_value
            (read_length w.width reg.len _ w.narrow (omega (arith, w.len_fits named, fits)))

    at_rest : drop (9 + w.width) payload ≡ take (reg.len * w.bits / 8) reg.value
    unfolding value_format
    at_rest =
        sym (drop-drop w.width 9 payload)
        ∙ rw at_value
            (drop-append w.width (le_bytes w.width reg.len) _ (length-le_bytes w.width reg.len))

    payload_length : length payload ≡ 9 + w.width + reg.len * w.bits / 8
    payload_length =
        omega (arith, ap length at_type, length-drop 8 payload, length-value_format reg w r fits)

    -- The reply of a node whose register holds an accepted value, of any type but the empty one,
    -- is read as that value: the result is 0, type and length are those of the register, and the
    -- buffer starts with its bytes and is zero behind them.
    pub read_response-value_format : read_response d payload ≡ some (pos 0, received reg w)
    unfolding read_response
    read_response-value_format =
        let behind : length payload - (9 + w.width) ≡ reg.len * w.bits / 8 =
          omega (arith, payload_length) in
        rw
          (
            type_read,
            w.width_at,
            len_read,
            read_value-some payload (9 + w.width)
                (omega (arith, payload_length, value_bytes_le reg.type reg.len w fits)),
            at_rest,
            behind,
          )
          (ap (λ r. some (r, received reg w))
            (response_code-valid (received reg w)
              ((valid_iff (received reg w)).1 ((valid_iff reg).0 valid).0 fits) named))
