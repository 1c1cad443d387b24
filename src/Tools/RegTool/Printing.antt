-- ===== src/Tools/RegTool/Printing.antt =====
-- What is printed of the numbers that were parsed.
use libwlmio.Prelude.{
  append-nil, ℕ, ◌*◌, ◌^◌, ◌≤◌, ◌<◌, ◌≡◌, refl, sym, ◌∙◌, ap, List, [], ◌++◌, map, none, some,
  arith, length, drop, All, pos, ltb-false, le→leb, length-append, length-drop, take-append,
}
use native.Mathlib.Nat.{mul_comm}
use libwlmio.Wire.{read_at, read_at_fits}
use libwlmio.Register.{Reg, validate_register_access}
use libwlmio.Register.Kind
use libwlmio.Tools.RegTool.{Argument, returns, parse_value, print_numbers, print_register, numbers}
use libwlmio.Tools.RegTool.Elements.{
  Good, number_of, bytes_of, numbers-bytes_of, length-bytes_of, parse_numbers-bytes_of,
  parse_numbers-overruns,
}

-- The types of which the tool parses values, with the size of a number.
pub data Parsed : ℕ → ℕ → Type 0 where
  bytes : Parsed Kind.uint8 1
  halves : Parsed Kind.uint16 2

module _ (width : ℕ) (args : List Argument) (value : List ℕ) (good : All Good args)
    (size : length value ≡ 256) where
  -- The value with the numbers at its front.
  abbrev written : List ℕ
  written = bytes_of width args ++ drop (width * length args) value

  printed :
      (type : ℕ)
      → 0 < 256 ^ width
      → width * length args ≤ 256
      → print_numbers width (record { type = type; len = length args; value = written })
        ≡ some (map (number_of width) args)
  unfolding print_numbers
  printed type some_values fits =
      let turned = mul_comm (length args) width in
      let long = length-bytes_of width args in
      let all : length written ≡ 256 =
        length-append (bytes_of width args) (drop (width * length args) value)
        ∙ omega (arith, length-drop (width * length args) value) in
      let read : read_at written 0 (length args * width) ≡ some (bytes_of width args) =
        read_at_fits written 0 (length args * width) (omega arith)
        ∙ ap some (
            take-append (length args * width) (bytes_of width args)
              (drop (width * length args) value) (omega arith)) in
      rw (le→leb (length args * width) 256 (omega arith), read)
        (ap (λ l. some (numbers width (length args) l)) (sym (append-nil (bytes_of width args)))
          ∙ ap some (numbers-bytes_of width args [] some_values))

-- Arguments that are numbers in the range of long, for a register of type uint8 or uint16: if they
-- fit the 256 bytes of the value, parse_value makes a value of them that validate_register_access
-- accepts and of which print_register prints the name, the type and the same numbers, in 8 or 16
-- bits; if they do not fit, parse_value writes past the value.
pub parse_value-prints :
    (type width : ℕ) (args : List Argument) (name value : List ℕ) (len : ℕ)
    → Parsed type width
    → All Good args
    → length value ≡ 256
    → (width * length args ≤ 256
        → (reg' : Reg) × (parse_value args (record { type = type; len = len; value = value })
            ≡ some (returns reg'))
          × (validate_register_access (some reg') ≡ pos 0)
          × (print_register name reg'
              ≡ some (record { name = name; type = type; elements = map (number_of width) args })))
      × (256 < width * length args
          → parse_value args (record { type = type; len = len; value = value }) ≡ none)
unfolding parse_value print_register validate_register_access
parse_value-prints type width args name value len bytes good size = (
  (λ fits. (
    record { type = Kind.uint8; len = length args; value = written 1 args value good size },
    parse_numbers-bytes_of 1 args 0 (record { type = Kind.uint8; len = len; value = value }) []
          value good refl refl (omega arith)
        ∙ ap
            (λ n. some (
              returns
                (record { type = Kind.uint8; len = n; value = written 1 args value good size })))
            (omega arith),
    rw (ltb-false 256 (length args) (omega arith)),
    rw (printed 1 args value good size Kind.uint8 (omega arith) fits),
  )),
  (λ past.
      parse_numbers-overruns 1 args 0 (record { type = Kind.uint8; len = len; value = value }) good
        (omega arith) (omega arith)),
)
parse_value-prints type width args name value len halves good size = (
  (λ fits. (
    record { type = Kind.uint16; len = length args; value = written 2 args value good size },
    parse_numbers-bytes_of 2 args 0 (record { type = Kind.uint16; len = len; value = value }) []
          value good refl refl (omega arith)
        ∙ ap
            (λ n. some (
              returns
                (record { type = Kind.uint16; len = n; value = written 2 args value good size })))
            (omega arith),
    rw (ltb-false 128 (length args) (omega arith)),
    rw (printed 2 args value good size Kind.uint16 (omega arith) fits),
  )),
  (λ past.
      parse_numbers-overruns 2 args 0 (record { type = Kind.uint16; len = len; value = value }) good
        (omega arith) (omega arith)),
)
