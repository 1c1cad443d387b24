-- ===== src/System/Events.antt =====
-- The invariant through the events of a tick.
use libwlmio.Prelude.{
  and_left, ℕ, ◌≤◌, ◌≡◌, ◌≢◌, refl, sym, ◌∙◌, ap, Option, none, some, true, Bool, ◌&&◌, Bool-cases,
  Option-cases, inl, inr, ◌==◌, ==_iff, length,
}
use libwlmio.Wire.{Dsdl, IsBytes}
use libwlmio.State.{World, Canard, Frame, Transfer, FdEntry, Callback}
use libwlmio.Register.Response.Faults.{Overruns}
use libwlmio.Fds.{entry_at}
use libwlmio.Fds.Pointers.Chain.{entry_addr}
use libwlmio.Async.{Call, async_timeout}
use libwlmio.Heartbeat.{StatusCall, TimerAnswers}
use libwlmio.Heartbeat.Taken.{TimerReady}
use libwlmio.Events.{
  Event, accepted_frame, is_message, is_response, handle_transfer, can_socket_handler, handle_event,
}
use libwlmio.Events.Dispatch.{
  socket_event, task_event, node_event, read_nothing, read_part, read_transfer,
}
use libwlmio.System.{IsLive, socket, waiter, watcher}
use libwlmio.System.Tasks.{Behaves, Notices, Settles, async_timeout-Settles}
use libwlmio.System.Nodes.{heartbeat_handler-Settles, heartbeat_timeout-Settles}
use libwlmio.System.Replies.{
  execute_command-Settles, register_access-Settles, register_list-Settles, node_info-Settles,
}

-- A transfer that no handler faults on: a heartbeat is not of node 127, a listed name is within the
-- 51 bytes that are subscribed to, and a register's value fits.
pub record IsFit (tfr : Transfer) : Type 0 where
  pub bytes : IsBytes tfr.payload
  pub heartbeat :
      tfr.port_id ≡ 7509
      → length tfr.payload ≢ 0
      → tfr.remote_node_id ≢ 255
      → tfr.remote_node_id ≤ 126
  pub name_fits : tfr.port_id ≡ 385 → length tfr.payload ≤ 52
  pub value_fits : tfr.port_id ≡ 384 → ¬ Overruns tfr.payload

-- An event of an entry that is in the list, with such a transfer if it completes one. What the
-- system gives to a new timer is not in use.
pub record IsDue {Ins : Type 0} (can : Canard Ins) (ev : Event) (w : World Ins) : Type 0 where
  pub entry : FdEntry
  pub listed : entry_at ev.entry w.fds ≡ some entry
  pub ready : TimerReady ev.os w.fds
  pub transfers :
      (frame : Frame) (i : Ins) (tfr : Transfer)
      → ev.frame ≡ some frame
      → can.rx_accept w.canard (accepted_frame frame) ≡ (i, some tfr)
      → IsFit tfr

port_of_test : (a b : ℕ) (t : Bool) → ((a == b) && t) ≡ true → a ≡ b
port_of_test a b t h = (==_iff a b).0 (and_left (a == b) t h)

module _ {Ins : Type 0} (IsSafe : Callback → Type 0) (can : Canard Ins) (d : Dsdl) (call : Call Ins)
    (behaves : Behaves IsSafe call) (status_call : StatusCall Ins)
    (notices : Notices IsSafe status_call) where
  handle_transfer-Settles :
      (os : TimerAnswers) (tfr : Transfer) (w : World Ins)
      → IsLive IsSafe w
      → TimerReady os w.fds
      → IsFit tfr
      → Settles IsSafe (handle_transfer can d call status_call os tfr w)
  unfolding handle_transfer
  handle_transfer-Settles os tfr w h ready fit =
      elim (Bool-cases (tfr.port_id == 7509 && is_message tfr.transfer_kind)) [
        | inl a ↦ rw a (
            heartbeat_handler-Settles IsSafe status_call notices w h d os tfr
              (fit.heartbeat (port_of_test _ _ _ a)) ready)
        | inr a ↦ elim (Bool-cases (tfr.port_id == 430 && is_response tfr.transfer_kind)) [
          | inl b ↦
              rw (a, b) (node_info-Settles IsSafe d call behaves tfr w h (port_of_test _ _ _ b))
          | inr b ↦ elim (Bool-cases (tfr.port_id == 385 && is_response tfr.transfer_kind)) [
            | inl c ↦
                let port = port_of_test _ _ _ c in
                rw (a, b, c)
                  (register_list-Settles IsSafe d call behaves tfr w h port (fit.name_fits port))
            | inr c ↦ elim (Bool-cases (tfr.port_id == 384 && is_response tfr.transfer_kind)) [
              | inl e ↦
                  rw (a, b, c, e)
                    (register_access-Settles IsSafe d call behaves tfr w h fit.bytes
                      (fit.value_fits (port_of_test _ _ _ e)))
              | inr e ↦ elim (Bool-cases (tfr.port_id == 435 && is_response tfr.transfer_kind)) [
                | inl f ↦ rw (a, b, c, e, f) (execute_command-Settles IsSafe d call behaves tfr w h)
                | inr f ↦ rw (a, b, c, e, f) (w, refl, h)
              ]
            ]
          ]
        ]
      ]

  can_socket_handler-Settles :
      (ev : Event) (w : World Ins)
      → IsLive IsSafe w
      → IsDue can ev w
      → Settles IsSafe (can_socket_handler can d call status_call ev w)
  can_socket_handler-Settles ev w h due = elim (Option-cases ev.frame) [
    | inl nothing ↦ (w, read_nothing can d call status_call ev w nothing, h)
    | inr (frame, read) ↦ completed frame read (can.rx_accept w.canard (accepted_frame frame)) refl
  ]
    where
      completed :
          (frame : Frame)
          → ev.frame ≡ some frame
          → (r : Ins × Option Transfer) → can.rx_accept w.canard (accepted_frame frame) ≡ r
          → Settles IsSafe (can_socket_handler can d call status_call ev w)
      completed frame read (i, none) e =
          (record w { canard = i }, read_part can d call status_call ev w frame read i e, h)
      completed frame read (i, some tfr) e =
          let (w', done, live) =
            handle_transfer-Settles ev.os tfr (record w { canard = i }) h due.ready
              (due.transfers frame i tfr read e) in
          (w', read_transfer can d call status_call ev w frame read i tfr e ∙ done, live)

  -- An event of an entry of the list does not fault, whichever handler it runs, and the invariant
  -- holds afterwards.
  pub handle_event-Settles :
      (ev : Event) (w : World Ins)
      → IsLive IsSafe w
      → IsDue can ev w
      → Settles IsSafe (handle_event can d call status_call ev w)
  handle_event-Settles ev w h due =
      let addr = entry_addr ev.entry w.fds due.entry due.listed in
      elim (h.owned ev.entry due.entry due.listed) [
        | socket p ↦
            let (w', done, live) = can_socket_handler-Settles ev w h due in
            (w', socket_event can d call status_call ev w due.entry due.listed p ∙ done, live)
        | waiter t p here timer ↦
            let (w', done, live) = async_timeout-Settles IsSafe call behaves w h t here in
            (
              w',
              task_event can d call status_call ev w due.entry due.listed p
                  ∙ ap (λ a. async_timeout call a w) (sym (timer ∙ addr))
                  ∙ done,
              live,
            )
        | watcher node fd p is found ↦
            let (w', done, live) =
              heartbeat_timeout-Settles IsSafe status_call notices w h ev.entry node fd due.entry
                addr is found in
            (w', node_event can d call status_call ev w due.entry due.listed p ∙ done, live)
      ]
