-- ===== src/Tools.antt =====
-- The command line tools, src/tools. What strtol gives for an argument is a parameter.
pub mod FwUpdate
pub mod Monitor
pub mod RegTool
use libwlmio.Prelude.{
  ℕ, ℤ, pos, negsuc, ◌-◌, ◌%◌, ltb, ◌||◌, Bool, Option, none, some, if◌then◌else◌,
}

-- strtol(argument, &endptr, 0): its result, whether errno is ERANGE or EINVAL then, and whether
-- endptr is the argument.
pub record Number : Type 0 where
  pub value : ℤ
  pub out_of_range : Bool
  pub no_digits : Bool

-- A long as the value of an unsigned integer of `bits` bits, of which there are `modulus`.
abbrev pub narrow : ℕ → ℤ → ℕ
narrow modulus (pos n) = n % modulus
narrow modulus (negsuc n) = modulus - 1 - n % modulus

-- The node of the first argument; `none` where the tool ends with a message.
unfoldable pub parse_node_id : Number → Option ℕ
parse_node_id n =
    let node_id = narrow 256 n.value in
    if n.out_of_range || n.no_digits then none else if ltb 127 node_id then none else some node_id
