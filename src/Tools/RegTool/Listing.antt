-- ===== src/Tools/RegTool/Listing.antt =====
-- What `dump_registers` prints of a node that answers.
use libwlmio.Prelude.{
  ◌>>=◌, ℕ, suc, ◌+◌, ◌<◌, ◌≡◌, ◌≢◌, ap, List, [], ◌∷◌, map, some, arith, pos, get_or, length,
  ne→==,
}
use libwlmio.Wire.{Dsdl}
use libwlmio.State.{Canard}
use libwlmio.Register.{Reg}
use libwlmio.Async.{Call}
use libwlmio.Heartbeat.{StatusCall}
use libwlmio.Tools.RegTool.{Printed, print_register}
use libwlmio.Tools.RegTool.Dump.{Session, list_call, access_call, dump_registers}

-- A register as a node lists it, with the line that is printed of it.
pub record Listed : Type 0 where
  pub name : List ℕ
  pub value : Reg
  pub line : Printed
  pub named : get_or name 0 0 ≢ 0
  pub prints : print_register name value ≡ some line

module _ {Ins : Type 0} (can : Canard Ins) (d : Dsdl) (call : Call Ins)
    (status_call : StatusCall Ins) (p q node_id : ℕ) where
  -- The calls of the session, in their order: from index `i` on the node lists these registers, and
  -- tells the value of each before the next is listed; in the end it gives an empty name.
  abbrev pub Answers : ℕ → List Listed → Session Ins → Type 0
  Answers i [] s =
      (name : List ℕ) × (s' : Session Ins) × (list_call can d call status_call p q node_id i s
        ≡ some (pos 0, name, s'))
      × (get_or name 0 0 ≡ 0)
  Answers i (l ∷ rest) s =
      (s1 : Session Ins) × (s2 : Session Ins) × (list_call can d call status_call p q node_id i s
        ≡ some (pos 0, l.name, s1))
      × (access_call can d call status_call p q node_id l.name s1 ≡ some (pos 0, l.value, s2))
      × Answers (i + 1) rest s2

  listed_from :
      (l : List Listed) (i : ℕ) (s : Session Ins)
      → Answers i l s
      → i + length l < 65536
      → (s' : Session Ins) × (dump_registers can d call status_call p q node_id (suc (length l)) i s
          ≡ some (map (λ (x : Listed). x.line) l, s'))
  unfolding dump_registers
  listed_from [] i s (name, s', lists, none_left) few = (s', rw (lists, none_left))
  listed_from (l ∷ rest) i s (s1, s2, listed, told, others) few =
      let (s3, later) = listed_from rest (i + 1) s2 others (omega arith) in
      (
        s3,
        rw
            (
              listed,
              ne→== (get_or l.name 0 0) 0 l.named,
              told,
              l.prints,
              ne→== i 65535 (λ p. omega arith),
            )
            (ap (λ o. o >>= λ (lines, s). some (l.line ∷ lines, s)) later),
      )

  -- Where the library's synchronous calls of a session all return 0 and give fewer than 65536 names
  -- of a node, none of them empty, and then an empty name, and after each name the value of that
  -- register, of which print_register prints a line: the loop of dump_registers ends after a round
  -- for each register and one more, and prints these lines in this order.
  pub dump_registers-listed :
      (l : List Listed) (s : Session Ins)
      → Answers 0 l s
      → length l < 65536
      → (s' : Session Ins) × (dump_registers can d call status_call p q node_id (suc (length l)) 0 s
          ≡ some (map (λ (x : Listed). x.line) l, s'))
  dump_registers-listed l s answers few = listed_from l 0 s answers (omega arith)
