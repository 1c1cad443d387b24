-- ===== src/Io/Dispatch/Reply.antt =====
-- A channel of a 6040 that is read, from the reply to the caller.
use libwlmio.Prelude.{
  ℕ, arith, ◌==◌, ap, ◌∙◌, ltb, true, false, ==_refl, ◌>>=◌, ◌<◌, ◌≡◌, ◌∷◌, Option, some, none, pos,
  drop, ltb-false, arith,
}
use libwlmio.Wire.{Dsdl}
use libwlmio.State.{World, Transfer, Task, Callback, ReadContext, update}
use libwlmio.Register.{Reg, IsReg, validate_register_access}
use libwlmio.Register.Kind
use libwlmio.Register.Widths.{Widths}
use libwlmio.Register.Request.Format.{value_format}
use libwlmio.Register.Response.RoundTrip.{received}
use libwlmio.Async.{Call, task_with_id}
use libwlmio.Async.Linked.{IsLinked}
use libwlmio.Async.Complete.{Appends, Ended}
use libwlmio.Transport.{make_rsp_specifier}
use libwlmio.Responses.{register_access_response_handler}
use libwlmio.Responses.Access.{stored, access_reply}
use libwlmio.Io.{put_read}
use libwlmio.Io.Read.{number_at}
use libwlmio.Io.Dispatch.{io_call}
use libwlmio.Io.Read

module _ {Ins : Type 0} where
  -- `*v` after the reply.
  abbrev pub with_half : World Ins → ℕ → ℕ → World Ins
  with_half w v x = record w { memory = record w.memory { halves = update w.memory.halves v x } }

  module _ (d : Dsdl) (call : Call Ins) (w w1 : World Ins) (tfr : Transfer) (c : Task) (p v : ℕ)
      (f : Callback) (u : Option ℕ) where
    accepted :
        (world : World Ins) (t : ReadContext) (type len : ℕ) (store : Read.Store Ins)
        → world.memory.reads p ≡ some t
        → ((world.memory.regs p).type == type) ≡ true
        → ltb (world.memory.regs p).len len ≡ false
        → Read.read_callback type len store call (pos 0) p world
          ≡ (store (world.memory.regs p).value t.input world >>= Read.finish_read call (pos 0) p t)
    unfolding Read.read_callback
    accepted world t type len store e a b = rw (e, a, b)

    module _ (reg : Reg) where
      at_stored : (stored w p reg).memory.regs p ≡ reg
      at_stored = rw (==_refl p)

      read_half :
          reg.type ≡ Kind.uint16
          → 0 < reg.len
          → w.memory.reads p ≡ some (record { input = some v; callback = some f; uparam = u })
          → call f (pos 0) u (with_half (stored w p reg) v (number_at reg.value 0 2)) ≡ some w1
          → io_call call Callback.vpe6040_read_callback (pos 0) (some p) (stored w p reg)
            ≡ some (put_read p none w1)
      unfolding io_call Read.vpe6040_read_callback Read.store_half Read.finish_read
      read_half named some_element context called =
          accepted (stored w p reg) _ Kind.uint16 1 Read.store_half context
            (ap (λ (g : Reg). g.type == Kind.uint16) at_stored ∙ rw named)
            (ap (λ (g : Reg). ltb g.len 1) at_stored ∙ ltb-false reg.len 1 (omega arith))
          ∙ ap
              (λ (g : Reg).
                call f (pos 0) u (with_half (stored w p reg) v (number_at g.value 0 2)) >>= λ after.
                some (put_read p none after))
              at_stored
          ∙ rw called

    -- The reply of a 6040 whose input register holds an accepted value of at least one 16-bit number
    -- ends the first task that waits under its specifier, where that is a read of this library: the
    -- number in the first two bytes received is stored where the caller asked, then the caller's
    -- function is called with 0, then the context is freed and, where the function only adds to the
    -- lists, the task is taken out of them.
    pub vpe6040_read-reply :
        (reg : Reg) (wd : Widths reg.type)
        → IsLinked w
        → task_with_id (make_rsp_specifier tfr) w.tasks ≡ some c
        → c.param ≡ some p
        → c.uparam ≡ some p
        → c.callback ≡ Callback.vpe6040_read_callback
        → w.memory.reads p ≡ some (record { input = some v; callback = some f; uparam = u })
        → IsReg reg
        → validate_register_access (some reg) ≡ pos 0
        → reg.type ≡ Kind.uint16
        → 0 < reg.len
        → drop 8 tfr.payload ≡ reg.type ∷ value_format reg wd.bits wd.width
        → call f
            (pos 0)
            u
            (with_half (stored w p (received reg wd)) v (number_at (received reg wd).value 0 2))
          ≡ some w1
        → Appends (stored w p (received reg wd)) (put_read p none w1)
        → Ended
            (stored w p (received reg wd))
            (put_read p none w1)
            c
            (register_access_response_handler d (io_call call) tfr w)
    vpe6040_read-reply reg wd h e param uparam own context r valid named some_element at called g =
        access_reply d (io_call call) w (put_read p none w1) tfr c p reg wd h e param r valid
          (omega (arith, named)) at
          (rw (own, uparam, read_half (received reg wd) named some_element context called)) g
