-- ===== src/Responses/Access.antt =====
-- A register access from the request to the call of the caller's function.
use libwlmio.Prelude.{ℕ, ◌<◌, ◌≡◌, ◌∷◌, some, pos, drop}
use libwlmio.Wire.{Dsdl}
use libwlmio.State.{World, Transfer, Task, update}
use libwlmio.Register.{Reg, IsReg, validate_register_access}
use libwlmio.Register.Widths.{Widths}
use libwlmio.Register.Request.Format.{value_format}
use libwlmio.Register.Response.RoundTrip.{received, read_response-value_format}
use libwlmio.Async.{Call, task_with_id, async_get_param}
use libwlmio.Async.Linked.{IsLinked}
use libwlmio.Async.Complete.{Appends, Ended, async_complete-Ended}
use libwlmio.Transport.{make_rsp_specifier}
use libwlmio.Responses.{register_access_response_handler}

module _ {Ins : Type 0} where
  -- The caller's value after the reply.
  abbrev pub stored : World Ins → ℕ → Reg → World Ins
  stored w p reg = record w { memory = record w.memory { regs = update w.memory.regs p reg } }

  stored-IsLinked : (w : World Ins) (p : ℕ) (reg : Reg) → IsLinked w → IsLinked (stored w p reg)
  stored-IsLinked w p reg h = record {
    addresses = h.addresses;
    timers_apart = h.timers_apart;
    watched = h.watched;
  }

  module _ (d : Dsdl) (call : Call Ins) (w w' : World Ins) (tfr : Transfer) (c : Task) (p : ℕ) where
    get_param :
        task_with_id (make_rsp_specifier tfr) w.tasks ≡ some c
        → c.param ≡ some p
        → async_get_param (make_rsp_specifier tfr) w ≡ (pos 0, some p)
    unfolding async_get_param
    get_param e f = rw (e, f)

    -- The reply of a node whose register holds an accepted value ends the first task that waits
    -- under its specifier: first the value is stored where the caller asked, the bytes past it
    -- zero, then the caller's function is called with 0 and, where it returns and only adds to the
    -- lists, the task is taken out of them.
    pub access_reply :
        (reg : Reg) (wd : Widths reg.type)
        → IsLinked w
        → task_with_id (make_rsp_specifier tfr) w.tasks ≡ some c
        → c.param ≡ some p
        → IsReg reg
        → validate_register_access (some reg) ≡ pos 0
        → 0 < reg.type
        → drop 8 tfr.payload ≡ reg.type ∷ value_format reg wd.bits wd.width
        → call c.callback (pos 0) c.uparam (stored w p (received reg wd)) ≡ some w'
        → Appends (stored w p (received reg wd)) w'
        → Ended (stored w p (received reg wd)) w' c (register_access_response_handler d call tfr w)
    unfolding register_access_response_handler
    access_reply reg wd h e f r valid named at called g =
        rw (get_param e f, read_response-value_format d reg wd r valid named tfr.payload at)
          (async_complete-Ended call (stored w p (received reg wd)) w' c
            (stored-IsLinked w p (received reg wd) h) (make_rsp_specifier tfr) (pos 0) e called g)
