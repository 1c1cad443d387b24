-- ===== src/Tools/RegTool.antt =====
-- The register tool, src/tools/regtool.c: its arguments, the value that it writes, and what it
-- prints of a value.
pub mod Elements
pub mod Printing
pub mod Dump
pub mod Listing
use libwlmio.Prelude.{
  ℕ, zero, suc, ◌+◌, ◌*◌, ◌^◌, ◌==◌, ltb, leb, ◌||◌, ◌>>◌, check, Bool, List, [], ◌∷◌, ◌++◌, Option,
  none, some, ◌>>=◌, if◌then◌else◌, ℤ, is_neg, length, take, drop,
}
use libwlmio.Wire.{zeros, le_bytes, le_value, copy_to, read_at}
use libwlmio.Register.{Reg}
use libwlmio.Register.Kind
use libwlmio.Tools.{Number, narrow, parse_node_id}

-- An argument: its characters, and what strtol makes of it.
pub record Argument : Type 0 where
  pub text : List ℕ
  pub number : Number

-- How a part of the tool ends: with a message and an exit, or with a result.
pub data Outcome {ℓ} (A : Type ℓ) : Type ℓ where
  fails : Outcome A
  returns : A → Outcome A

-- The loop of `parse_value` from argument `i` on, for numbers of `width` bytes. A number past the
-- end of `value` is a fault.
unfoldable pub parse_numbers : ℕ → List Argument → ℕ → Reg → Option (Outcome Reg)
parse_numbers width [] i reg = some (returns (record reg { len = i }))
parse_numbers width (a ∷ rest) i reg =
    let stored =
      copy_to reg.value (width * i) (le_bytes width (narrow (256 ^ width) a.number.value)) in
    let later =
      stored >>= λ value. parse_numbers width rest (i + 1) (record reg { value = value }) in
    if a.number.out_of_range || a.number.no_digits then some fails else later

-- A value of any other type stays as it is, with the length 0.
unfoldable pub parse_value : List Argument → Reg → Option (Outcome Reg)
unfolding parse_numbers
parse_value args reg =
    if reg.type == Kind.uint8
    then parse_numbers 1 args 0 reg
    else if reg.type == Kind.uint16
    then parse_numbers 2 args 0 reg
    else some (returns reg)

-- What the tool is to do.
pub data Mode : Type 0 where
  dump : ℕ → Mode
  read : (node_id : ℕ) (name : List ℕ) → Mode
  write : (node_id : ℕ) (name : List ℕ) → Reg → Mode

-- strncpy(name, argv[2], 50) into 51 bytes of zeros.
abbrev pub register_name : List ℕ → List ℕ
register_name text = take 50 text ++ drop (length (take 50 text)) (zeros 51)

parse_write : ℕ → List ℕ → Argument → List Argument → Reg → Option (Outcome Mode)
unfolding parse_value
parse_write node_id name kind values reg =
    let type = narrow 256 kind.number.value in
    let written = parse_value values (record reg { type = type }) >>= λ outcome. elim outcome [
      | fails ↦ some fails
      | returns reg ↦ some (returns (write node_id name reg))
    ] in
    if kind.number.out_of_range || kind.number.no_digits || ltb type 1 || ltb 14 type
    then some fails
    else written

-- The arguments after the name of the program. `reg` is `reg_write` before, all zeros.
unfoldable pub parse_arguments : List Argument → Reg → Option (Outcome Mode)
unfolding parse_write
parse_arguments [] reg = some fails
parse_arguments (id ∷ []) reg = elim (parse_node_id id.number) [
  | none ↦ some fails
  | some node_id ↦ some (returns (dump node_id))
]
parse_arguments (id ∷ name ∷ []) reg = elim (parse_node_id id.number) [
  | none ↦ some fails
  | some node_id ↦ some (returns (read node_id (register_name name.text)))
]
parse_arguments (id ∷ name ∷ kind ∷ []) reg = some fails
parse_arguments (id ∷ name ∷ kind ∷ value ∷ values) reg = elim (parse_node_id id.number) [
  | none ↦ some fails
  | some node_id ↦ parse_write node_id (register_name name.text) kind (value ∷ values) reg
]

-- The numbers of `width` bytes in an array.
unfoldable pub numbers : ℕ → ℕ → List ℕ → List ℕ
numbers width zero bytes = []
numbers width (suc count) bytes =
    le_value (take width bytes) ∷ numbers width count (drop width bytes)

-- What `print_register` prints: the name, the type and the numbers, those of float32 as their 32
-- bits. The other types print no number.
pub record Printed : Type 0 where
  pub name : List ℕ
  pub type : ℕ
  pub elements : List ℕ

-- memcpy into an array of 256 bytes, and the loop over its numbers.
unfoldable pub print_numbers : ℕ → Reg → Option (List ℕ)
unfolding numbers
print_numbers width reg = do
  check (leb (reg.len * width) 256)
  bytes ← read_at reg.value 0 (reg.len * width)
  some (numbers width reg.len bytes)

unfoldable pub print_register : List ℕ → Reg → Option Printed
unfolding print_numbers
print_register name reg = do
  elements ←
      if reg.type == Kind.uint32
      then print_numbers 4 reg
      else if reg.type == Kind.uint16
      then print_numbers 2 reg
      else if reg.type == Kind.uint8
      then print_numbers 1 reg
      else if reg.type == Kind.float32
      then print_numbers 4 reg
      else some []
  some (record { name = name; type = reg.type; elements = elements })
