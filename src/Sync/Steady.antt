-- ===== src/Sync/Steady.antt =====
-- The invariant of the library through a synchronous call.
use libwlmio.Prelude.{
  ℕ, ℤ, pos, ◌≡◌, refl, ◌∙◌, List, [], ◌∷◌, Option, none, some, true, false, Bool-cases, inl, inr,
  ltb, ◌||◌, neg_einval, is_neg, if◌then◌else◌,
}
use libwlmio.Wire.{Dsdl}
use libwlmio.State.{World, Canard, Callback, application}
use libwlmio.Async.{Call}
use libwlmio.Heartbeat.{StatusCall}
use libwlmio.Events.{wlmio_tick}
use libwlmio.Requests.{tfr_tx, advance, RequestAnswers, wlmio_get_node_info, is_null, node_id_max}
use libwlmio.System.{IsLive, Extends}
use libwlmio.System.Tasks.{Behaves, Notices}
use libwlmio.System.Requests.{IsFresh, same-Extends, begin-Extends}
use libwlmio.System.Asked.{gives_of_some, or_false}
use libwlmio.System.Started.{AllDue, tick-Settles}
use libwlmio.Sync.{
  Round, sync_call, library_call, wait, wait_unless, run_sync, wlmio_get_node_info_sync,
}
use libwlmio.Sync.Waiting.{wait-flagged, wait-step}

-- The functions of the application and the one that ends a wait.
abbrev pub IsPlain : Callback → Type 0
IsPlain (application f) = Unit
IsPlain Callback.sync_callback = Unit
IsPlain _ = ⊥

module _ {Ins : Type 0} (can : Canard Ins) (d : Dsdl) (call : Call Ins)
    (behaves : Behaves IsPlain call) (status_call : StatusCall Ins)
    (notices : Notices IsPlain status_call) where
  library_call-Behaves : Behaves IsPlain (library_call call)
  unfolding library_call sync_call
  library_call-Behaves (application f) r uparam w safe h = behaves (application f) r uparam w safe h
  library_call-Behaves Callback.sync_callback r uparam w safe h =
      (record w { sync_return = r; sync_flag = true }, refl, same-Extends IsPlain w _ refl refl h)
  library_call-Behaves _ r uparam w safe h = absurd safe

  -- Rounds of the wait whose events are due, each in the state that the ones before leave.
  abbrev pub DueRounds : List Round → World Ins → Type 0
  DueRounds [] w = Unit
  DueRounds (round ∷ rest) w =
      AllDue can d (library_call call) status_call round.events w
      × ((w' : World Ins)
          → wlmio_tick can d (library_call call) status_call round.room round.events w
            ≡ some (pos 0, w')
          → DueRounds rest w')

  wait-Settles :
      (rounds : List Round) (w : World Ins)
      → IsLive IsPlain w
      → DueRounds rounds w
      → (r : Option ℤ) × (w' : World Ins) × (wait can d (library_call call) status_call rounds w
          ≡ some (r, w'))
        × IsLive IsPlain w'
  unfolding wait
  wait-Settles [] w h due = (if w.sync_flag then some w.sync_return else none, w, refl, h)
  wait-Settles (round ∷ rest) w h (due, later) = elim (Bool-cases w.sync_flag) [
    | inl set ↦ (_, w, wait-flagged can d (library_call call) status_call (round ∷ rest) w set, h)
    | inr unset ↦
        let (v, ticked, live) =
          tick-Settles can d (library_call call) status_call IsPlain library_call-Behaves notices
            round.room round.events w h due in
        let (r, w', waited, after) = wait-Settles rest v live (later v ticked) in
        (
          r,
          w',
          wait-step can d (library_call call) status_call round rest w unset ∙ rw ticked waited,
          after,
        )
  ]

  -- The request of a call, whose events are due once it was sent.
  run_sync-Settles :
      (start : World Ins → Option (ℤ × World Ins)) (rounds : List Round) (w : World Ins) (r : ℤ)
      (w' : World Ins)
      → start (record w { sync_flag = false }) ≡ some (r, w')
      → IsLive IsPlain w'
      → DueRounds rounds w'
      → (last : Option ℤ) × (after : World Ins) × (run_sync can d
            (library_call call)
            status_call
            start
            rounds
            w
          ≡ some (last, after))
        × IsLive IsPlain after
  unfolding run_sync wait_unless
  run_sync-Settles start rounds w r w' started live due = elim (Bool-cases (is_neg r)) [
    | inl refused ↦ (some r, w', rw (started, refused), live)
    | inr asked ↦
        let (last, after, waited, steady) = wait-Settles rounds w' live due in
        (last, after, rw (started, asked) waited, steady)
  ]

  module _ (os : RequestAnswers) (node_id : ℕ) (node_info : Option ℕ) where
    -- The request of `wlmio_get_node_info_sync`.
    abbrev pub inquire : World Ins → Option (ℤ × World Ins)
    inquire = wlmio_get_node_info can os node_id node_info (some Callback.sync_callback) none

    inquire-Extends :
        (w : World Ins)
        → IsLive IsPlain w
        → IsFresh os.async w
        → (r : ℤ) × (w' : World Ins) × (inquire w ≡ some (r, w')) × Extends IsPlain w w'
    unfolding wlmio_get_node_info
    inquire-Extends w h fresh =
        elim (Bool-cases (ltb node_id_max node_id || is_null node_info || false)) [
          | inl denied ↦ (neg_einval, w, rw denied, same-Extends IsPlain w w refl refl h)
          | inr accepted ↦
              let (there, _) =
                or_false (ltb node_id_max node_id || is_null node_info) false accepted in
              let (w', begun, g) =
                begin-Extends IsPlain can os (tfr_tx 430 node_id (w.tfr_ids.node_info node_id) [])
                  (record w.tfr_ids { node_info = advance w.tfr_ids.node_info node_id }) node_info
                  none w h Callback.sync_callback tt fresh
                  (gives_of_some _ node_info (or_false (ltb node_id_max node_id) _ there).1) in
              (pos 0, w', rw accepted begun, g)
        ]

    -- A synchronous request for node information, in a state in which the invariant of the library
    -- holds and every task that waits is to call a function of the application or the one of the
    -- synchronous calls, none of an I/O module: the call does not fault, and the invariant holds
    -- when it returns or while it still waits, whether the node answers or not. Memory that is
    -- given to the request is not in use, and there is memory for the entry of its timer; the
    -- functions of the application return and do no more than start requests; and once the request
    -- was sent, every event of the rounds is of an entry that is in the list, the system would give
    -- a new timer and memory for its entry, neither in use, and a transfer that the event completes
    -- has bytes for a payload and is no heartbeat that is not empty of a node above 126, other than
    -- the unset 255, no reply of more than 52 bytes with a register name and no register value that
    -- overruns its tables or buffer.
    pub wlmio_get_node_info_sync-Settles :
        (rounds : List Round) (w : World Ins)
        → IsLive IsPlain w
        → IsFresh os.async w
        → ((r : ℤ) (w' : World Ins)
            → inquire (record w { sync_flag = false }) ≡ some (r, w')
            → DueRounds rounds w')
        → (last : Option ℤ) × (after : World Ins) × (wlmio_get_node_info_sync can d
              (library_call call)
              status_call
              os
              node_id
              node_info
              rounds
              w
            ≡ some (last, after))
          × IsLive IsPlain after
    unfolding wlmio_get_node_info_sync
    wlmio_get_node_info_sync-Settles rounds w h fresh due =
        let (r, w', started, g) =
          inquire-Extends (record w { sync_flag = false }) h
            (record {
              task_new = fresh.task_new;
              entry = fresh.entry;
              entry_given = fresh.entry_given;
              entry_new = fresh.entry_new;
            }) in
        run_sync-Settles inquire rounds w r w' started g.live (due r w' started)
