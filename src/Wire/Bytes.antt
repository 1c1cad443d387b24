-- ===== src/Wire/Bytes.antt =====
-- Little-endian numbers as lists of bytes.
use native.Mathlib.Nat.{pow-suc}
use libwlmio.Prelude.{
  ℕ, zero, suc, ◌+◌, ◌*◌, ◌/◌, ◌%◌, ◌^◌, ◌<◌, ◌≡◌, refl, ap, sym, ◌∙◌, append-nil, List, [], ◌∷◌,
  ◌++◌, arith, length, get_or, drop, All,
}

abbrev pub IsBytes : List ℕ → Type 0
IsBytes = All (λ b. b < 256)

-- The number that the bytes stand for, the lowest byte first.
unfoldable pub le_value : List ℕ → ℕ
le_value [] = 0
le_value (b ∷ bs) = b + 256 * le_value bs

-- The `n` lowest bytes of a number, as `memcpy` from an unsigned integer writes them.
unfoldable pub le_bytes : ℕ → ℕ → List ℕ
le_bytes zero x = []
le_bytes (suc n) x = (x % 256) ∷ le_bytes n (x / 256)

pub length-le_bytes : (n x : ℕ) → length (le_bytes n x) ≡ n
unfolding le_bytes
length-le_bytes zero x = refl
length-le_bytes (suc n) x = ap suc (length-le_bytes n (x / 256))

pub le_bytes-IsBytes : (n x : ℕ) → IsBytes (le_bytes n x)
unfolding le_bytes
le_bytes-IsBytes zero x = tt
le_bytes-IsBytes (suc n) x = (omega arith, le_bytes-IsBytes n (x / 256))

-- What follows the bytes of `x` counts in multiples of `256 ^ n`.
pub le_value-le_bytes-append :
    (n x : ℕ) (rest : List ℕ)
    → x < 256 ^ n
    → le_value (le_bytes n x ++ rest) ≡ x + 256 ^ n * le_value rest
unfolding le_bytes le_value
le_value-le_bytes-append zero x rest h = omega arith
le_value-le_bytes-append (suc n) x rest h = omega (
  arith,
  pow-suc 256 n,
  ap (λ (t : ℕ). t * le_value rest) (pow-suc 256 n),
  le_value-le_bytes-append n (x / 256) rest (omega (arith, pow-suc 256 n)),
)

pub le_value-le_bytes : (n x : ℕ) → x < 256 ^ n → le_value (le_bytes n x) ≡ x
unfolding le_value
le_value-le_bytes n x h =
    ap le_value (sym (append-nil (le_bytes n x))) ∙ le_value-le_bytes-append n x [] h ∙ omega arith

-- The lowest byte of what is left at `k` is the byte at `k`, and 0 past the end.
pub le_value-drop_byte :
    (k : ℕ) (bs : List ℕ) → IsBytes bs → le_value (drop k bs) % 256 ≡ get_or bs k 0
unfolding le_value
le_value-drop_byte zero [] h = refl
le_value-drop_byte (suc k) [] h = refl
le_value-drop_byte zero (b ∷ bs) h = omega arith
le_value-drop_byte (suc k) (b ∷ bs) h = le_value-drop_byte k bs h.1

module _ where
  pub IsBytes-append : (xs ys : List ℕ) → IsBytes xs → IsBytes ys → IsBytes (xs ++ ys)
  IsBytes-append [] ys h k = k
  IsBytes-append (x ∷ xs) ys h k = (h.0, IsBytes-append xs ys h.1 k)

  pub IsBytes-drop : (n : ℕ) (xs : List ℕ) → IsBytes xs → IsBytes (drop n xs)
  IsBytes-drop zero xs h = h
  IsBytes-drop (suc n) [] h = tt
  IsBytes-drop (suc n) (x ∷ xs) h = IsBytes-drop n xs h.1
