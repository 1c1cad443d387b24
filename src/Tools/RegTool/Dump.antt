-- ===== src/Tools/RegTool/Dump.antt =====
-- `dump_registers` of src/tools/regtool.c, with the two synchronous calls that it makes.
use libwlmio.Prelude.{
  ℕ, zero, suc, ◌+◌, ◌==◌, List, [], ◌∷◌, Option, none, some, ◌>>=◌, if◌then◌else◌, ℤ, is_neg,
  get_or,
}
use libwlmio.Wire.{Dsdl}
use libwlmio.State.{World, Canard}
use libwlmio.Register.{Reg}
use libwlmio.Async.{Call}
use libwlmio.Heartbeat.{StatusCall}
use libwlmio.Requests.{RequestAnswers}
use libwlmio.Sync.{Round, wlmio_register_list_sync, wlmio_register_access_sync}
use libwlmio.Tools.RegTool.{Printed, print_register}

-- The library's state, and what each further call meets.
pub record Session (Ins : Type 0) : Type 0 where
  pub world : World Ins
  pub calls : List (RequestAnswers × List Round)

-- The characters before the NUL.
abbrev pub until_nul : List ℕ → List ℕ
until_nul [] = []
until_nul (c ∷ cs) = if c == 0 then [] else c ∷ until_nul cs

returned {ℓ} :
    {A : Type ℓ} {Ins : Type 0}
    → (World Ins → A)
    → List (RequestAnswers × List Round)
    → Option ℤ × World Ins
    → Option (ℤ × A × Session Ins)
returned object calls (none, w) = none
returned object calls (some r, w) = some (r, object w, record { world = w; calls = calls })

module _ {Ins : Type 0} (can : Canard Ins) (d : Dsdl) (call : Call Ins)
    (status_call : StatusCall Ins) (p q node_id : ℕ) where
  -- The two calls, with the name at the address `p` and the value at `q`: the result, what the object
  -- holds then, and the session; `none` for a fault, a call that does not return, or a session
  -- without a further call.
  unfoldable pub list_call : ℕ → Session Ins → Option (ℤ × List ℕ × Session Ins)
  unfolding returned
  list_call index s = elim s.calls [
    | [] ↦ none
    | (os, rounds) ∷ later ↦
        wlmio_register_list_sync can d call status_call os node_id index (some p) rounds s.world
        >>= returned (λ w. w.memory.names p) later
  ]

  unfoldable pub access_call : List ℕ → Session Ins → Option (ℤ × Reg × Session Ins)
  unfolding returned
  access_call name s = elim s.calls [
    | [] ↦ none
    | (os, rounds) ∷ later ↦
        wlmio_register_access_sync can d call status_call os node_id (some (until_nul name)) none
          (some q) rounds s.world
        >>= returned (λ w. w.memory.regs q) later
  ]

  -- The loop from index `i` on, of which `rounds` are left; the lines that it prints.
  unfoldable pub dump_registers : ℕ → ℕ → Session Ins → Option (List Printed × Session Ins)
  unfolding list_call access_call
  dump_registers zero i s = none
  dump_registers (suc rounds) i s = do
    (r, name, s) ← list_call i s
    let shown = access_call name s >>= λ (r, value, s).
        let printed = print_register name value >>= λ line.
        let rest = dump_registers rounds (i + 1) s >>= λ (lines, s). some (line ∷ lines, s) in
        if i == 65535 then some (line ∷ [], s) else rest in
        if is_neg r then some ([], s) else printed
    if is_neg r then some ([], s) else if get_or name 0 0 == 0 then some ([], s) else shown
