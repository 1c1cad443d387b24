-- ===== src/Sync/Access.antt =====
-- `wlmio_register_access_sync` with a value to write: the reply, and the lack of one.
use libwlmio.Prelude.{
  ℕ, ◌<◌, ◌≡◌, ◌∙◌, ap, refl, List, [], ◌∷◌, ◌++◌, Option, some, none, pos, neg_etimedout, ℤ, drop,
  eq_of_some, false,
}
use libwlmio.Wire.{Dsdl}
use libwlmio.State.{World, Canard, Transfer, Task, Callback, response}
use libwlmio.Register.{Reg, IsReg, validate_register_access}
use libwlmio.Register.Widths.{Widths}
use libwlmio.Register.Request.Format.{request_head, value_part, value_format}
use libwlmio.Register.Response.RoundTrip.{received}
use libwlmio.Async.{Call, task_at, task_with_id}
use libwlmio.Async.Linked.{IsLinked, unlinked}
use libwlmio.Async.Complete.{Ended}
use libwlmio.Transport.{uavcan_send, make_rsp_specifier}
use libwlmio.Requests.{RequestAnswers, wlmio_register_access}
use libwlmio.Requests.Start.{
  Ready, waiting_task, started, started_flag, started_at, task_with_id-append,
}
use libwlmio.Requests.Access.{access_tx, access_ids, Asks, write_tables-Asks}
use libwlmio.Responses.Access.{stored}
use libwlmio.Heartbeat.{StatusCall}
use libwlmio.Events.{Event}
use libwlmio.Events.Reply.{Delivers, taken, tick_access_reply}
use libwlmio.Sync.{Round, library_call, wlmio_register_access_sync}
use libwlmio.Sync.Waiting.{idle, sent}
use libwlmio.Sync.Timeout.{
  begun, flagged, flagged-Appends, run_sync-timeout, run_sync-idle, wait-tick, sent_tasks,
  sent_flag, sent-IsLinked,
}

module _ {Ins : Type 0} (can : Canard Ins) (d : Dsdl) (call : Call Ins)
    (status_call : StatusCall Ins) (os : RequestAnswers) (w : World Ins)
    (ready : Ready os (begun w)) (linked : IsLinked (begun w)) (node_id : ℕ)
    (node_fits : node_id < 127) (c : ℕ) (cs : List ℕ) (reg : Reg) (wd : Widths reg.type)
    (regr : Option ℕ) (r : IsReg reg) (valid : validate_register_access (some reg) ≡ pos 0)
    (rooms : List ℕ) (rest : List Round) (room : ℕ) (ev : Event) where
  abbrev pub written : Transfer
  written =
      access_tx can os (begun w) ready linked node_id node_fits c cs Callback.sync_callback none
        (request_head (c ∷ cs) reg.type ++ value_part reg wd)

  -- The task of the call, and the world in which it waits, after rounds in which nothing came.
  abbrev pub write_task : Task
  write_task =
      waiting_task can os (begun w) ready written
        (access_ids can os (begun w) ready linked node_id node_fits c cs Callback.sync_callback
          none)
        regr Callback.sync_callback none

  abbrev asked : World Ins
  asked =
      started can os (begun w) ready written
        (access_ids can os (begun w) ready linked node_id node_fits c cs Callback.sync_callback
          none)
        regr Callback.sync_callback none

  abbrev pub unanswered : World Ins
  unanswered = sent can rooms asked

  request : World Ins → Option (ℤ × World Ins)
  request v =
      wlmio_register_access can os node_id (some (c ∷ cs)) (some reg) regr
        (some Callback.sync_callback) none v

  made :
      Asks can os
        (begun w)
        ready
        linked
        node_id
        node_fits
        c
        cs
        Callback.sync_callback
        none
        (request_head (c ∷ cs) reg.type ++ value_part reg wd)
        regr
        (request (begun w))
  unfolding request
  made =
      write_tables-Asks can os (begun w) ready linked node_id node_fits c cs Callback.sync_callback
        none reg wd regr r valid

  flag_unset : asked.sync_flag ≡ false
  flag_unset =
      started_flag can os (begun w) ready written
        (access_ids can os (begun w) ready linked node_id node_fits c cs Callback.sync_callback
          none)
        regr Callback.sync_callback none

  write_task_at : task_at write_task.addr asked.tasks ≡ some write_task
  write_task_at =
      started_at can os (begun w) ready written
        (access_ids can os (begun w) ready linked node_id node_fits c cs Callback.sync_callback
          none)
        regr Callback.sync_callback none

  -- A synchronous write of an accepted value whose reply does not come ends when its timer runs out:
  -- after any number of rounds without an event, the round with the timer makes it return
  -- -ETIMEDOUT, and its task and timer are gone.
  pub wlmio_register_access_sync-timeout :
      ev.entry ≡ ready.entry
      → (last : World Ins) × Ended unanswered
          (flagged unanswered neg_etimedout)
          write_task
          (some last)
        × (wlmio_register_access_sync can d
              (library_call call)
              status_call
              os
              node_id
              (some (c ∷ cs))
              (some reg)
              regr
              (idle rooms ++ (record { room = room; events = ev ∷ [] } ∷ rest))
              w
            ≡ some (some neg_etimedout, uavcan_send can room last))
  unfolding wlmio_register_access_sync request
  wlmio_register_access_sync-timeout fires =
      run_sync-timeout can d call status_call request w asked made.result flag_unset rooms rest room
        ev write_task made.linked_after write_task_at refl fires

  module _ (i : Ins) (p : ℕ) (gives : regr ≡ some p) (tfr : Transfer) (answer : Reg)
      (answer_widths : Widths answer.type) where
    -- The world with the answer where the caller asked for it.
    abbrev pub answered : World Ins
    answered =
        stored (taken can d (library_call call) status_call ev unanswered i) p
          (received answer answer_widths)

    -- A synchronous write of an accepted value returns 0 when the node answers: after any number of
    -- rounds without an event, the round in which the socket gives the frame that completes the
    -- reply, which no task waited for before, ends the loop. The answer is stored where the caller
    -- asked, and the task and its timer are gone.
    pub wlmio_register_access_sync-reply :
        Delivers can d (library_call call) status_call ev unanswered i tfr
        → tfr.port_id ≡ 384
        → tfr.transfer_kind ≡ response
        → make_rsp_specifier tfr ≡ make_rsp_specifier written
        → task_with_id (make_rsp_specifier written) w.tasks ≡ none
        → IsReg answer
        → validate_register_access (some answer) ≡ pos 0
        → 0 < answer.type
        → drop 8 tfr.payload
          ≡ answer.type ∷ value_format answer answer_widths.bits answer_widths.width
        → (last : World Ins) × Ended answered (flagged answered (pos 0)) write_task (some last)
          × (wlmio_register_access_sync can d
                (library_call call)
                status_call
                os
                node_id
                (some (c ∷ cs))
                (some reg)
                regr
                (idle rooms ++ (record { room = room; events = ev ∷ [] } ∷ rest))
                w
              ≡ some (some (pos 0), uavcan_send can room last))
    unfolding wlmio_register_access_sync request library_call unlinked
    wlmio_register_access_sync-reply del port kind same fresh fits accepted named at =
        let waits : task_with_id (make_rsp_specifier tfr) unanswered.tasks ≡ some write_task =
          rw (same, sent_tasks can rooms asked)
            (ap (task_with_id (make_rsp_specifier written)) made.tasks_after
              ∙ task_with_id-append (make_rsp_specifier written) w.tasks write_task fresh refl) in
        let linked' = sent-IsLinked can rooms asked made.linked_after in
        let (last, ended, ticked) =
          tick_access_reply can d (library_call call) status_call ev unanswered i
            (flagged answered (pos 0)) tfr write_task p answer answer_widths room del port kind
            linked' waits gives fits accepted named at refl
            (flagged-Appends answered (pos 0) (record {
              addresses = linked'.addresses;
              timers_apart = linked'.timers_apart;
              watched = linked'.watched;
            })) in
        let here = eq_of_some ended.result in
        (
          last,
          ended,
          run_sync-idle can d call status_call request w asked made.result flag_unset rooms rest
                (record { room = room; events = ev ∷ [] })
              ∙ wait-tick can d (library_call call) status_call
                  (record { room = room; events = ev ∷ [] }) rest unanswered last (pos 0)
                  (sent_flag can rooms asked ∙ flag_unset) ticked
                  (ap (λ (v : World Ins). v.sync_flag) here)
                  (ap (λ (v : World Ins). v.sync_return) here),
        )
