-- ===== src/Wire/Reader.antt =====
-- canardDSDLGetU8 and its siblings. The library's code calls them with the payload and its size,
-- at offsets that are whole bytes; what canard_dsdl.h documents for such calls are the laws.
use libwlmio.Prelude.{
  ℕ, ◌+◌, ◌*◌, ◌%◌, ◌^◌, ◌≤◌, ◌<◌, ◌≡◌, sym, ◌∙◌, List, ◌++◌, arith, drop, drop-append, length,
  get_or, drop-drop, ◌∷◌,
}
use libwlmio.Wire.Bytes.{IsBytes, le_value, le_bytes, le_value-drop_byte, le_value-le_bytes-append}

-- `len` bits from bit `off` on, the first argument standing for the buffer and its size. Bits past
-- the end count as zero.
pub record Dsdl : Type 0 where
  pub get_u8 : List ℕ → ℕ → ℕ → ℕ
  pub get_u16 : List ℕ → ℕ → ℕ → ℕ
  pub get_u32 : List ℕ → ℕ → ℕ → ℕ
  pub get_u64 : List ℕ → ℕ → ℕ → ℕ
  pub get_u8_lem :
      (b : List ℕ) (k len : ℕ) → len ≤ 8 → get_u8 b (k * 8) len ≡ le_value (drop k b) % 2 ^ len
  pub get_u16_lem :
      (b : List ℕ) (k len : ℕ) → len ≤ 16 → get_u16 b (k * 8) len ≡ le_value (drop k b) % 2 ^ len
  pub get_u32_lem :
      (b : List ℕ) (k len : ℕ) → len ≤ 32 → get_u32 b (k * 8) len ≡ le_value (drop k b) % 2 ^ len
  pub get_u64_lem :
      (b : List ℕ) (k len : ℕ) → len ≤ 64 → get_u64 b (k * 8) len ≡ le_value (drop k b) % 2 ^ len

module _ (d : Dsdl) where
  pub get_u8_byte : (b : List ℕ) (k : ℕ) → IsBytes b → d.get_u8 b (k * 8) 8 ≡ get_or b k 0
  get_u8_byte b k h = d.get_u8_lem b k 8 (omega arith) ∙ le_value-drop_byte k b h

  -- A byte, and eight of them, that are known to stand at an offset.
  pub get_u8_at :
      (b : List ℕ) (k x : ℕ) (rest : List ℕ)
      → drop k b ≡ x ∷ rest
      → x < 256
      → d.get_u8 b (k * 8) 8 ≡ x
  unfolding le_value
  get_u8_at b k x rest e h = d.get_u8_lem b k 8 (omega arith) ∙ rw e (omega arith)

  pub get_u64_at :
      (b : List ℕ) (k x : ℕ) (rest : List ℕ)
      → drop k b ≡ le_bytes 8 x ++ rest
      → x < 2 ^ 64
      → d.get_u64 b (k * 8) 64 ≡ x
  get_u64_at b k x rest e h =
      d.get_u64_lem b k 64 (omega arith) ∙ rw e (omega (arith, le_value-le_bytes-append 8 x rest))

-- What stands behind a part of known length.
pub drop_advance :
    (b : List ℕ) (k j : ℕ) (xs rest : List ℕ)
    → drop k b ≡ xs ++ rest
    → length xs ≡ j
    → drop (k + j) b ≡ rest
drop_advance b k j xs rest e h = sym (drop-drop j k b) ∙ rw e (drop-append j xs rest h)
