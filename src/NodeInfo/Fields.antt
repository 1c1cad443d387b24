-- ===== src/NodeInfo/Fields.antt =====
-- The copies into the arrays of `struct wlmio_node_info`, in closed form.
use libwlmio.Prelude.{
  ℕ, ◌-◌, ◌≤◌, ◌≡◌, refl, ◌∙◌, ap, inl, inr, List, ◌++◌, some, arith, ltb, Bool-cases,
  if◌then◌else◌, min, length, length-append, length-take, length-drop, take, drop, take-append,
}
use native.Mathlib.Nat.{zero-add}
use libwlmio.Wire.{copy_to_fits, read_at_fits}
use libwlmio.NodeInfo.{copy_field}

-- How many bytes there are to copy.
abbrev pub available : List ℕ → ℕ → ℕ → ℕ
available payload offset limit = min limit (length payload - offset)

abbrev pub filled : List ℕ → List ℕ → ℕ → ℕ → List ℕ
filled field payload offset limit =
    take (available payload offset limit) (drop offset payload)
    ++ drop (available payload offset limit) field

at_most : (a b : ℕ) → (if ltb a b then a else b) ≡ min a b
at_most a b = ground arith

pub length-available :
    (payload : List ℕ) (offset limit : ℕ)
    → length (take (available payload offset limit) (drop offset payload))
      ≡ available payload offset limit
length-available payload offset limit = omega (
  arith,
  length-take (available payload offset limit) (drop offset payload),
  length-drop offset payload,
)

-- A copy that the size of the field limits never overruns it.
pub copy_field-filled :
    (field payload : List ℕ) (offset limit : ℕ)
    → limit ≤ length field
    → copy_field field payload offset limit ≡ some (filled field payload offset limit)
unfolding copy_field
copy_field-filled field payload offset limit h = elim (Bool-cases (ltb offset (length payload))) [
  | inl more ↦
      rw
        (
          more,
          at_most limit (length payload - offset),
          read_at_fits payload offset (available payload offset limit) (ground arith),
        )
        (copy_to_fits field 0 (take (available payload offset limit) (drop offset payload))
            (omega (arith, length-available payload offset limit))
          ∙ rw (length-available payload offset limit, zero-add))
  | inr rest ↦ let nothing : available payload offset limit ≡ 0 = ground arith in rw (rest, nothing)
]

-- The field keeps its size, and its bytes from `limit` on.
pub length-filled :
    (field payload : List ℕ) (offset limit : ℕ)
    → limit ≤ length field
    → length (filled field payload offset limit) ≡ length field
length-filled field payload offset limit h = omega (
  arith,
  length-append (take (available payload offset limit) (drop offset payload))
      (drop (available payload offset limit) field),
  length-available payload offset limit,
  length-drop (available payload offset limit) field,
)

-- Where the payload holds `src` at the offset, the field starts with it.
pub filled-append :
    (field payload src rest : List ℕ) (offset : ℕ)
    → drop offset payload ≡ src ++ rest
    → filled field payload offset (length src) ≡ src ++ drop (length src) field
filled-append field payload src rest offset e =
    let enough : available payload offset (length src) ≡ length src =
      omega (arith, ap length e, length-drop offset payload, length-append src rest) in
    rw (enough, e, take-append (length src) src rest refl)
