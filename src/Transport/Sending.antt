-- ===== src/Transport/Sending.antt =====
-- The queue of libcanard and the bus after `uavcan_send`.
use libwlmio.Prelude.{
  inl, inr, Option-cases, ℕ, zero, suc, ◌≡◌, refl, ◌∙◌, ap, List, [], ◌∷◌, ◌++◌, append_assoc, map,
  Option, none, some, take, drop, sym, append-nil, Option-cases,
}
use libwlmio.State.{Frame, Canard, World}
use libwlmio.Transport.{on_bus, uavcan_send}

abbrev pub first : List Frame → Option Frame
first [] = none
first (f ∷ rest) = some f

-- What canard.h says of the queue: `canardTxPeek` gives its top element and NULL if it is empty,
-- and `canardTxPop` removes that element.
pub record IsQueue {Ins : Type 0} (can : Canard Ins) (queue : Ins → List Frame) : Type 0 where
  pub peek : (i : Ins) → can.tx_peek i ≡ first (queue i)
  pub pop : (i : Ins) → queue (can.tx_pop i) ≡ drop 1 (queue i)

module _ {Ins : Type 0} (can : Canard Ins) (queue : Ins → List Frame) (q : IsQueue can queue) where
  send_step :
      (room : ℕ) (w : World Ins) (l : List Frame)
      → queue w.canard ≡ l
      → ((w' : World Ins)
          → ((uavcan_send can room w').bus ≡ w'.bus ++ map on_bus (take room (queue w'.canard)))
            × (queue (uavcan_send can room w').canard ≡ drop room (queue w'.canard)))
      → ((uavcan_send can (suc room) w).bus ≡ w.bus ++ map on_bus (take (suc room) l))
        × (queue (uavcan_send can (suc room) w).canard ≡ drop (suc room) l)
  unfolding uavcan_send
  send_step room w [] e ih =
      rw (q.peek w.canard ∙ ap first e, uavcan_send) (sym (append-nil w.bus), e)
  send_step room w (f ∷ rest) e ih =
      let w' : World Ins = record w {
        bus = w.bus ++ (on_bus f ∷ []);
        canard = can.tx_pop w.canard;
      } in
      let popped : queue w'.canard ≡ rest = q.pop w.canard ∙ ap (drop 1) e in
      rw (q.peek w.canard ∙ ap first e, uavcan_send)
        (
          (ih w').0 ∙ rw popped (append_assoc w.bus (on_bus f ∷ []) (map on_bus (take room rest))),
          (ih w').1 ∙ ap (drop room) popped,
        )

  -- With room for `room` frames, and a transmit queue that peeks and pops as a list, as many leave
  -- the queue, or all of them, and go out behind what the bus took before, in order.
  pub uavcan_send-order :
      (room : ℕ) (w : World Ins)
      → ((uavcan_send can room w).bus ≡ w.bus ++ map on_bus (take room (queue w.canard)))
        × (queue (uavcan_send can room w).canard ≡ drop room (queue w.canard))
  uavcan_send-order zero w = unfold uavcan_send in (sym (append-nil w.bus), refl)
  uavcan_send-order (suc room) w = send_step room w (queue w.canard) refl (uavcan_send-order room)

-- Sending changes the queue and the bus alone.
pub uavcan_send-keeps :
    {Ins : Type 0} (can : Canard Ins) (room : ℕ) (w : World Ins)
    → uavcan_send can room w
      ≡ record w { bus = (uavcan_send can room w).bus; canard = (uavcan_send can room w).canard }
unfolding uavcan_send
uavcan_send-keeps can zero w = refl
uavcan_send-keeps can (suc room) w = elim (Option-cases (can.tx_peek w.canard)) [
  | inl e ↦ rw (e, uavcan_send)
  | inr (f, e) ↦ rw (e, uavcan_send) (uavcan_send-keeps can room _)
]
