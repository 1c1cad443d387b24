-- ===== src/Init/Pins.antt =====
-- The number of the node, as the pins give it.
use libwlmio.Prelude.{
  ap, ◌∙◌, sym, subst, fun_ext, ℕ, zero, suc, ◌<◌, ◌≡◌, ◌/◌, ◌%◌, ◌^◌, ◌&&◌, refl, Bool, true,
  false, pos, ◌==◌, Bool-cases, inl, inr, arith, and_left, is_neg, ==_iff, ap, subst, sym,
}
use libwlmio.Init.{InitAnswers, get_node_id, or_pin}

-- The binary digits of a number.
abbrev pub digits : ℕ → ℕ → ℕ
digits n i = n / 2 ^ i % 2

pins : (ℕ → ℕ) → ℕ
pins v = or_pin v 6 (or_pin v 5 (or_pin v 4 (or_pin v 3 (or_pin v 2 (or_pin v 1 (or_pin v 0 0))))))

all_read : ℕ → Bool
unfolding pins
all_read zero = true
all_read (suc n) = (pins (digits n) == n) && all_read n

read_128 : all_read 128 ≡ true
unfolding all_read
read_128 = refl

below : (rounds n : ℕ) → all_read rounds ≡ true → n < rounds → (pins (digits n) == n) ≡ true
unfolding all_read
below zero n h fits = absurd (omega arith)
below (suc rounds) n h fits = elim (Bool-cases (n == rounds)) [
  | inl last ↦
      subst (λ k. (pins (digits k) == k) ≡ true) (sym ((==_iff n rounds).0 last)) (and_left _ _ h)
  | inr other ↦ below rounds n (and_right _ _ h) (ground arith)
]
  where
    and_right : (a b : Bool) → (a && b) ≡ true → b ≡ true
    and_right true b k = k
    and_right false b k = absurd (cc k)

-- Where the read of the seven pins succeeds and they show the binary digits of a number below 128,
-- that number is what get_node_id returns.
pub get_node_id-digits :
    (os : InitAnswers) (n : ℕ)
    → n < 128
    → is_neg os.gpiod ≡ false
    → ((i : ℕ) → os.values i ≡ digits n i)
    → get_node_id os ≡ pos n
unfolding get_node_id pins
get_node_id-digits os n fits good shown = rw good (
    ap (λ v. pos (pins v)) (fun_ext shown)
    ∙ ap pos ((==_iff (pins (digits n)) n).0 (below 128 n read_128 fits)))
