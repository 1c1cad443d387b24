-- ===== src/Responses/Commands.antt =====
-- The reply to a command, up to the call of the caller's function.
use libwlmio.Prelude.{ltb, lt→ltb, true, length, ℕ, ◌<◌, ◌≡◌, ◌∙◌, ap, List, ◌∷◌, some, arith, pos}
use libwlmio.Wire.{Dsdl, get_u8_at}
use libwlmio.State.{World, Transfer, Task}
use libwlmio.Async.{Call, task_with_id}
use libwlmio.Async.Linked.{IsLinked}
use libwlmio.Async.Complete.{Appends, Ended, async_complete-Ended}
use libwlmio.Transport.{make_rsp_specifier}
use libwlmio.Responses.{execute_command_response_handler}

module _ {Ins : Type 0} (d : Dsdl) (call : Call Ins) (w w' : World Ins) (tfr : Transfer)
    (c : Task) where
  -- A reply with the status of a command ends the first task that waits under its specifier: the
  -- caller's function is called with that status, and then the task and its timer leave their
  -- lists, provided the function returns and only adds to the lists.
  pub execute_command_reply :
      (status : ℕ) (rest : List ℕ)
      → IsLinked w
      → task_with_id (make_rsp_specifier tfr) w.tasks ≡ some c
      → tfr.payload ≡ status ∷ rest
      → status < 256
      → call c.callback (pos status) c.uparam w ≡ some w'
      → Appends w w'
      → Ended w w' c (execute_command_response_handler d call tfr w)
  unfolding execute_command_response_handler
  execute_command_reply status rest h e sent fits called g =
      let read = get_u8_at d tfr.payload 0 status rest sent fits in
      let more : ltb 0 (length tfr.payload) ≡ true =
        ap (λ l. ltb 0 (length l)) sent ∙ lt→ltb 0 (length (status ∷ rest)) (omega arith) in
      rw (more, read)
        (async_complete-Ended call w w' c h (make_rsp_specifier tfr) (pos status) e called g)
