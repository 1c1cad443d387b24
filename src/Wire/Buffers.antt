-- ===== src/Wire/Buffers.antt =====
-- Objects of a fixed size. A copy that does not fit is a fault.
use libwlmio.Prelude.{
  ℕ, suc, ◌+◌, ◌≤◌, ◌≡◌, List, ◌++◌, Option, none, some, arith, leb, if◌then◌else◌, length, take,
  drop, replicate, length-replicate,
}

-- An object of `n` bytes after memset(…, 0, n).
unfoldable pub zeros : ℕ → List ℕ
zeros n = replicate n 0

pub length-zeros : (n : ℕ) → length (zeros n) ≡ n
unfolding zeros
length-zeros n = length-replicate n 0

-- memcpy(dst + off, src, length of src)
unfoldable pub copy_to : List ℕ → ℕ → List ℕ → Option (List ℕ)
copy_to dst off src =
    if leb (off + length src) (length dst)
    then some (take off dst ++ (src ++ drop (off + length src) dst))
    else none

-- The same at the end of what is written so far in an allocation of `cap` bytes: its content before
-- that is not initialised, and never read.
unfoldable pub emit : ℕ → List ℕ → List ℕ → Option (List ℕ)
emit cap buf src = if leb (length buf + length src) cap then some (buf ++ src) else none

-- n bytes read from `src + off`
unfoldable pub read_at : List ℕ → ℕ → ℕ → Option (List ℕ)
read_at src off n = if leb (off + n) (length src) then some (take n (drop off src)) else none

pub emit_fits :
    (cap : ℕ) (buf src : List ℕ)
    → length buf + length src ≤ cap
    → emit cap buf src ≡ some (buf ++ src)
unfolding emit
emit_fits cap buf src h = ground arith

pub copy_to_fits :
    (dst : List ℕ) (off : ℕ) (src : List ℕ)
    → off + length src ≤ length dst
    → copy_to dst off src ≡ some (take off dst ++ (src ++ drop (off + length src) dst))
unfolding copy_to
copy_to_fits dst off src h = ground arith

pub copy_to_overflow :
    (dst : List ℕ) (off : ℕ) (src : List ℕ)
    → suc (length dst) ≤ off + length src
    → copy_to dst off src ≡ none
unfolding copy_to
copy_to_overflow dst off src h = ground arith

pub read_at_fits :
    (src : List ℕ) (off n : ℕ)
    → off + n ≤ length src
    → read_at src off n ≡ some (take n (drop off src))
unfolding read_at
read_at_fits src off n h = ground arith
