-- ===== src/Sync/Timeout.antt =====
-- A synchronous call whose reply does not come.
use libwlmio.Prelude.{
  ℕ, ℤ, neg_etimedout, ◌≡◌, refl, ◌∙◌, ap, sym, true, false, List, [], ◌∷◌, some, append-nil,
  Option, pos, subst, ◌++◌,
}
use libwlmio.Wire.{Dsdl}
use libwlmio.State.{World, Canard, Task, Callback}
use libwlmio.Fds.{close}
use libwlmio.Async.{Call, task_at}
use libwlmio.Async.Linked.{IsLinked, All-at, unlinked}
use libwlmio.Async.Complete.{Appends, Ended, async_timeout-Ended}
use libwlmio.Transport.{uavcan_send}
use libwlmio.Transport.Sending.{uavcan_send-keeps}
use libwlmio.Heartbeat.{StatusCall}
use libwlmio.Events.{Event, wlmio_tick, handle_events, handle_event}
use libwlmio.Sync.{Round, library_call, wait, run_sync}
use libwlmio.Sync.Waiting.{wait-flagged, wait-step, sent, sent-keeps, idle, wait-idle}

module _ {Ins : Type 0} where
  -- The world once `sync_callback` has been called.
  abbrev pub flagged : World Ins → ℤ → World Ins
  flagged w r = record w { sync_return = r; sync_flag = true }

  pub flagged-Appends : (w : World Ins) (r : ℤ) → IsLinked w → Appends w (flagged w r)
  flagged-Appends w r h = record {
    tasks = [];
    fds = [];
    tasks_after = sym (append-nil w.tasks);
    fds_after = sym (append-nil w.fds);
    linked = record { addresses = h.addresses; timers_apart = h.timers_apart; watched = h.watched };
  }

  module _ (can : Canard Ins) (d : Dsdl) (call : Call Ins) (status_call : StatusCall Ins) where
    -- The loop ends after a tick that leaves the flag set.
    pub wait-tick :
        (round : Round) (rest : List Round) (w last : World Ins) (r : ℤ)
        → w.sync_flag ≡ false
        → wlmio_tick can d call status_call round.room round.events w
          ≡ some (pos 0, uavcan_send can round.room last)
        → last.sync_flag ≡ true
        → last.sync_return ≡ r
        → wait can d call status_call (round ∷ rest) w
          ≡ some (some r, uavcan_send can round.room last)
    wait-tick round rest w last r unset ticked set result =
        let kept = uavcan_send-keeps can round.room last in
        wait-step can d call status_call round rest w unset
        ∙ rw ticked (
            wait-flagged can d call status_call rest (uavcan_send can round.room last)
              (ap (λ (v : World Ins). v.sync_flag) kept ∙ set)
            ∙ ap (λ x. some (some x, uavcan_send can round.room last))
                (ap (λ (v : World Ins). v.sync_return) kept ∙ result))

  module _ (can : Canard Ins) (d : Dsdl) (call : Call Ins) (status_call : StatusCall Ins)
      (ev : Event) (w : World Ins) (c : Task) (h : IsLinked w)
      (at : task_at c.addr w.tasks ≡ some c) (waits : c.callback ≡ Callback.sync_callback)
      (fires : ev.entry ≡ c.timer) where
    abbrev late : World Ins
    late = flagged w neg_etimedout

    timer_handled :
        (last : World Ins) × Ended w late c (some last)
        × (handle_event can d (library_call call) status_call ev w ≡ some last)
        × (last.sync_flag ≡ true)
        × (last.sync_return ≡ neg_etimedout)
    unfolding handle_event library_call unlinked
    timer_handled =
        let ended =
          async_timeout-Ended (library_call call) w late c h at (rw waits)
            (flagged-Appends w neg_etimedout h) in
        let (entry, watched, handles) = All-at _ c.addr w.tasks c h.watched at in
        (
          unlinked late c (close ended.entry.fd late.armed),
          record {
            entry = ended.entry;
            was_watched = ended.was_watched;
            result = refl;
            linked = ended.linked;
            gone = ended.gone;
          },
          rw (fires, watched, handles) ended.result,
          refl,
          refl,
        )

  -- Idle rounds leave the lists as they are.
  module _ (can : Canard Ins) (rooms : List ℕ) (w : World Ins) where
    pub sent-IsLinked : IsLinked w → IsLinked (sent can rooms w)
    sent-IsLinked h =
        subst IsLinked (sym (sent-keeps can rooms w))
          (record { addresses = h.addresses; timers_apart = h.timers_apart; watched = h.watched })

    pub sent_tasks : (sent can rooms w).tasks ≡ w.tasks
    sent_tasks = ap (λ (v : World Ins). v.tasks) (sent-keeps can rooms w)

    pub sent_flag : (sent can rooms w).sync_flag ≡ w.sync_flag
    sent_flag = ap (λ (v : World Ins). v.sync_flag) (sent-keeps can rooms w)

  -- The state in which a synchronous call makes its request.
  abbrev pub begun : World Ins → World Ins
  begun w = record w { sync_flag = false }

  module _ (can : Canard Ins) (d : Dsdl) (call : Call Ins) (status_call : StatusCall Ins)
      (start : World Ins → Option (ℤ × World Ins)) (w w1 : World Ins)
      (accepted : start (begun w) ≡ some (pos 0, w1)) (unset : w1.sync_flag ≡ false)
      (rooms : List ℕ) (rest : List Round) where
    -- The call after rounds in which nothing came.
    pub run_sync-idle :
        (round : Round)
        → run_sync can d (library_call call) status_call start (idle rooms ++ (round ∷ rest)) w
          ≡ wait can d (library_call call) status_call (round ∷ rest) (sent can rooms w1)
    unfolding run_sync
    run_sync-idle round =
        rw accepted (wait-idle can d (library_call call) status_call rooms (round ∷ rest) w1 unset)

    pub run_sync-timeout :
        (room : ℕ) (ev : Event) (c : Task)
        → IsLinked w1
        → task_at c.addr w1.tasks ≡ some c
        → c.callback ≡ Callback.sync_callback
        → ev.entry ≡ c.timer
        → (last : World Ins) × Ended
            (sent can rooms w1)
            (flagged (sent can rooms w1) neg_etimedout)
            c
            (some last)
          × (run_sync can d
                (library_call call)
                status_call
                start
                (idle rooms ++ (record { room = room; events = ev ∷ [] } ∷ rest))
                w
              ≡ some (some neg_etimedout, uavcan_send can room last))
    unfolding wlmio_tick handle_events
    run_sync-timeout room ev c linked at waits fires =
        let v = sent can rooms w1 in
        let at' : task_at c.addr v.tasks ≡ some c = rw (sent_tasks can rooms w1) at in
        let (last, ended, handled, set, result) =
          timer_handled can d call status_call ev v c (sent-IsLinked can rooms w1 linked) at' waits
            fires in
        (
          last,
          ended,
          run_sync-idle (record { room = room; events = ev ∷ [] })
              ∙ wait-tick can d (library_call call) status_call
                  (record { room = room; events = ev ∷ [] }) rest v last neg_etimedout
                  (sent_flag can rooms w1 ∙ unset) (rw handled) set result,
        )
