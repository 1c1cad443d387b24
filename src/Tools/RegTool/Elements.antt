-- ===== src/Tools/RegTool/Elements.antt =====
-- The numbers of the arguments in the bytes of a value.
use libwlmio.Prelude.{
  none, length-take, ℕ, zero, suc, ◌+◌, ◌*◌, ◌^◌, ◌≤◌, ◌<◌, ◌≡◌, refl, sym, ◌∙◌, ap, List, [], ◌∷◌,
  ◌++◌, append_assoc, map, some, arith, length, take, drop, take-append, drop-append, length-append,
  drop-drop, length-drop, ◌||◌, false, All, ℤ,
}
use native.Mathlib.Nat.{mul-suc, mul-zero}
use native.Mathlib.Decide.{dec_lt}
use libwlmio.Wire.{
  copy_to_overflow, le_bytes, le_value, length-le_bytes, le_value-le_bytes, copy_to, copy_to_fits,
}
use libwlmio.Register.{Reg}
use libwlmio.Tools.{narrow}
use libwlmio.Tools.RegTool.{Argument, returns, parse_numbers, numbers}

-- The argument is a number in the range of long.
abbrev pub Good : Argument → Type 0
Good a = (a.number.out_of_range || a.number.no_digits) ≡ false

module _ (width : ℕ) where
  abbrev pub number_of : Argument → ℕ
  number_of a = narrow (256 ^ width) a.number.value

  -- The bytes of the numbers, one after the other.
  abbrev pub bytes_of : List Argument → List ℕ
  bytes_of [] = []
  bytes_of (a ∷ rest) = le_bytes width (number_of a) ++ bytes_of rest

  narrow_fits : (m : ℕ) (z : ℤ) → 0 < m → narrow m z < m
  narrow_fits m (ℤ.pos n) h = omega arith
  narrow_fits m (ℤ.negsuc n) h = omega arith

  pub numbers-bytes_of :
      (args : List Argument) (rest : List ℕ)
      → 0 < 256 ^ width
      → numbers width (length args) (bytes_of args ++ rest) ≡ map number_of args
  unfolding numbers
  numbers-bytes_of [] rest h = refl
  numbers-bytes_of (a ∷ args) rest h =
      let own = le_bytes width (number_of a) in
      let split : bytes_of (a ∷ args) ++ rest ≡ own ++ (bytes_of args ++ rest) =
        append_assoc own (bytes_of args) rest in
      let is = length-le_bytes width (number_of a) in
      let first : le_value (take width (bytes_of (a ∷ args) ++ rest)) ≡ number_of a =
        ap (λ l. le_value (take width l)) split
        ∙ ap le_value (take-append width own (bytes_of args ++ rest) is)
        ∙ le_value-le_bytes width (number_of a) (narrow_fits (256 ^ width) a.number.value h) in
      let others : drop width (bytes_of (a ∷ args) ++ rest) ≡ bytes_of args ++ rest =
        ap (drop width) split ∙ drop-append width own (bytes_of args ++ rest) is in
      rw (first, others) (ap (λ l. number_of a ∷ l) (numbers-bytes_of args rest h))

  pub length-bytes_of : (args : List Argument) → length (bytes_of args) ≡ width * length args
  length-bytes_of [] = sym (mul-zero width)
  length-bytes_of (a ∷ args) =
      length-append (le_bytes width (number_of a)) (bytes_of args)
      ∙ omega (
        arith,
        length-le_bytes width (number_of a),
        length-bytes_of args,
        mul-suc width (length args),
      )

  -- One number is copied behind those that are there.
  copied :
      (front rest own : List ℕ) (at : ℕ)
      → length front ≡ at
      → length own ≡ width
      → width ≤ length rest
      → copy_to (front ++ rest) at own ≡ some ((front ++ own) ++ drop width rest)
  copied front rest own at is size fits =
      let behind : drop (at + length own) (front ++ rest) ≡ drop width rest =
        sym (drop-drop (length own) at (front ++ rest))
        ∙ ap (drop (length own)) (drop-append at front rest is)
        ∙ ap (λ n. drop n rest) size in
      copy_to_fits (front ++ rest) at own (omega (arith, length-append front rest))
      ∙ ap (λ l. some (l ++ (own ++ drop (at + length own) (front ++ rest))))
          (take-append at front rest is)
      ∙ ap (λ l. some (front ++ (own ++ l))) behind
      ∙ ap some (sym (append_assoc front own (drop width rest)))

  pub parse_numbers-bytes_of :
      (args : List Argument) (i : ℕ) (reg : Reg) (front rest : List ℕ)
      → All Good args
      → reg.value ≡ front ++ rest
      → length front ≡ width * i
      → width * length args ≤ length rest
      → parse_numbers width args i reg
        ≡ some (
            returns (record reg {
              len = i + length args;
              value = front ++ (bytes_of args ++ drop (width * length args) rest);
            }))
  unfolding parse_numbers
  parse_numbers-bytes_of [] i reg front rest good is at fits =
      let same : front ++ drop (width * 0) rest ≡ reg.value =
        ap (λ n. front ++ drop n rest) (mul-zero width) ∙ sym is in
      ap (λ v. some (returns (record reg { len = i; value = v }))) (sym same)
      ∙ ap (λ n. some (returns (record reg { len = n; value = front ++ drop (width * 0) rest })))
          (omega arith)
  parse_numbers-bytes_of (a ∷ args) i reg front rest (good, others) is at fits =
      let own = le_bytes width (number_of a) in
      let size = length-le_bytes width (number_of a) in
      let room : width + width * length args ≤ length rest =
        omega (arith, mul-suc width (length args)) in
      let stored : copy_to reg.value (width * i) own ≡ some ((front ++ own) ++ drop width rest) =
        ap (λ v. copy_to v (width * i) own) is
        ∙ copied front rest own (width * i) at size (omega arith) in
      let next : Reg = record reg { value = (front ++ own) ++ drop width rest } in
      let later =
        parse_numbers-bytes_of args (i + 1) next (front ++ own) (drop width rest) others refl
          (length-append front own ∙ omega (arith, mul-suc width i))
          (omega (arith, length-drop width rest)) in
      let tail : (front ++ own) ++ (bytes_of args ++ drop (width * length args) (drop width rest))
          ≡ front ++ (bytes_of (a ∷ args) ++ drop (width * length (a ∷ args)) rest) =
        append_assoc front own (bytes_of args ++ drop (width * length args) (drop width rest))
        ∙ ap (λ l. front ++ l)
            (sym (append_assoc own (bytes_of args) (drop (width * length args) (drop width rest)))
              ∙ ap (λ l. (own ++ bytes_of args) ++ l)
                  (drop-drop (width * length args) width rest
                    ∙ ap (λ n. drop n rest) (omega (arith, mul-suc width (length args))))) in
      rw (good, stored)
        (later
          ∙ ap
              (λ n. some (
                returns (record reg {
                  len = n;
                  value =
                      (front ++ own)
                      ++ (bytes_of args ++ drop (width * length args) (drop width rest));
                })))
              (omega arith)
          ∙ ap (λ v. some (returns (record reg { len = i + length (a ∷ args); value = v }))) tail)

  -- A number that does not fit any more.
  pub parse_numbers-overruns :
      (args : List Argument) (i : ℕ) (reg : Reg)
      → All Good args
      → width * i ≤ length reg.value
      → length reg.value < width * i + width * length args
      → parse_numbers width args i reg ≡ none
  unfolding parse_numbers
  parse_numbers-overruns [] i reg good within past = absurd (omega (arith, mul-zero width))
  parse_numbers-overruns (a ∷ args) i reg (good, others) within past =
      let own = le_bytes width (number_of a) in
      let size = length-le_bytes width (number_of a) in
      elim (dec_lt (length reg.value) (width * i + width)) [
        | yes last ↦ rw (good, copy_to_overflow reg.value (width * i) own (omega arith))
        | no more ↦
            let split : take (width * i) reg.value ++ drop (width * i) reg.value ≡ reg.value =
              take_drop (width * i) reg.value in
            let front : length (take (width * i) reg.value) ≡ width * i =
              omega (arith, length-take (width * i) reg.value) in
            let left = length-drop (width * i) reg.value in
            let stored =
              ap (λ v. copy_to v (width * i) own) (sym split)
              ∙ copied (take (width * i) reg.value) (drop (width * i) reg.value) own (width * i)
                  front size (omega arith) in
            let next =
              (take (width * i) reg.value ++ own) ++ drop width (drop (width * i) reg.value) in
            let long : length next ≡ length reg.value =
              length-append (take (width * i) reg.value ++ own)
                (drop width (drop (width * i) reg.value))
              ∙ omega (
                arith,
                length-append (take (width * i) reg.value) own,
                length-drop width (drop (width * i) reg.value),
              ) in
            rw (good, stored)
              (parse_numbers-overruns args (i + 1) (record reg { value = next }) others
                (omega (arith, mul-suc width i))
                (omega (arith, mul-suc width i, mul-suc width (length args))))
      ]
    where
      take_drop : (n : ℕ) (xs : List ℕ) → take n xs ++ drop n xs ≡ xs
      take_drop zero xs = refl
      take_drop (suc n) [] = refl
      take_drop (suc n) (x ∷ xs) = ap (λ t. x ∷ t) (take_drop n xs)
