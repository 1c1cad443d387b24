-- ===== src/Prelude/Ints.antt =====
-- C's signed results. A function of the library returns 0 or a negated `errno`.
use Prim.Native.Nat.{ℕ}
use mathlib.Core.Bool.{Bool, true, false}
use libwlmio.Prelude.Tests.{◌==◌}

-- `negsuc n` is -(n + 1).
pub data ℤ : Type 0 where
  pos : ℕ → ℤ
  negsuc : ℕ → ℤ

abbrev pub is_neg : ℤ → Bool
is_neg (pos n) = false
is_neg (negsuc n) = true

abbrev pub is_zero : ℤ → Bool
is_zero (pos n) = n == 0
is_zero (negsuc n) = false

-- The values of <errno.h> on Linux, negated.
abbrev pub neg_enoent : ℤ
neg_enoent = negsuc 1

abbrev pub neg_enomem : ℤ
neg_enomem = negsuc 11

abbrev pub neg_einval : ℤ
neg_einval = negsuc 21

abbrev pub neg_ebade : ℤ
neg_ebade = negsuc 51

abbrev pub neg_eproto : ℤ
neg_eproto = negsuc 70

abbrev pub neg_enotsup : ℤ
neg_enotsup = negsuc 94

abbrev pub neg_etimedout : ℤ
neg_etimedout = negsuc 109
