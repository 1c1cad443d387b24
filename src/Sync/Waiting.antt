-- ===== src/Sync/Waiting.antt =====
-- The wait while nothing happens, and once the flag is set.
use libwlmio.Prelude.{
  ℕ, ◌≡◌, refl, ◌∙◌, ap, true, false, List, [], ◌∷◌, ◌++◌, map, some, ◌>>=◌, if◌then◌else◌,
}
use libwlmio.Wire.{Dsdl}
use libwlmio.State.{World, Canard}
use libwlmio.Async.{Call}
use libwlmio.Transport.{uavcan_send}
use libwlmio.Transport.Sending.{uavcan_send-keeps}
use libwlmio.Heartbeat.{StatusCall}
use libwlmio.Events.{wlmio_tick, handle_events}
use libwlmio.Sync.{Round, wait}

-- Rounds in which no event comes, each with the number of frames that the socket takes.
abbrev pub idle : List ℕ → List Round
idle = map (λ room. record { room = room; events = [] })

module _ {Ins : Type 0} (can : Canard Ins) where
  -- The world after such rounds.
  unfoldable pub sent : List ℕ → World Ins → World Ins
  sent [] w = w
  sent (room ∷ rest) w = sent rest (uavcan_send can room w)

  pub sent-keeps :
      (rooms : List ℕ) (w : World Ins)
      → sent rooms w ≡ record w { bus = (sent rooms w).bus; canard = (sent rooms w).canard }
  unfolding sent
  sent-keeps [] w = refl
  sent-keeps (room ∷ rest) w =
      let later = uavcan_send can room w in
      sent-keeps rest later
      ∙ ap
          (λ (v : World Ins). record v {
            bus = (sent rest later).bus;
            canard = (sent rest later).canard;
          })
          (uavcan_send-keeps can room w)

  module _ (d : Dsdl) (call : Call Ins) (status_call : StatusCall Ins) where
    pub wait-flagged :
        (rounds : List Round) (w : World Ins)
        → w.sync_flag ≡ true
        → wait can d call status_call rounds w ≡ some (some w.sync_return, w)
    unfolding wait
    wait-flagged [] w set = rw set
    wait-flagged (round ∷ rest) w set = rw set

    pub wait-step :
        (round : Round) (rest : List Round) (w : World Ins)
        → w.sync_flag ≡ false
        → wait can d call status_call (round ∷ rest) w ≡ (
            wlmio_tick can d call status_call round.room round.events w >>= λ (r, w).
            wait can d call status_call rest w)
    unfolding wait
    wait-step round rest w unset =
        ap
          (λ flag.
            if flag
            then some (some w.sync_return, w)
            else (wlmio_tick can d call status_call round.room round.events w >>= λ (r, w).
                wait can d call status_call rest w))
          unset

    pub wait-idle :
        (rooms : List ℕ) (rest : List Round) (w : World Ins)
        → w.sync_flag ≡ false
        → wait can d call status_call (idle rooms ++ rest) w
          ≡ wait can d call status_call rest (sent rooms w)
    unfolding sent wlmio_tick handle_events
    wait-idle [] rest w unset = refl
    wait-idle (room ∷ rooms) rest w unset =
        wait-step (record { room = room; events = [] }) (idle rooms ++ rest) w unset
        ∙ wait-idle rooms rest (uavcan_send can room w)
            (ap (λ (v : World Ins). v.sync_flag) (uavcan_send-keeps can room w) ∙ unset)
