-- ===== src/Tools/FwUpdate/Sending.antt =====
-- The loop of `uavcan_send` in the update tool.
use libwlmio.Prelude.{
  ◌≤◌, ◌≡◌, refl, sym, ◌∙◌, ap, List, [], ◌∷◌, ◌++◌, append-nil, append_assoc, some, Bool, arith,
  length, if◌then◌else◌, drop,
}
use libwlmio.State.{Canard, Frame}
use libwlmio.Transport.{on_bus}
use libwlmio.Transport.Sending.{IsQueue, first}
use libwlmio.Tools.FwUpdate.{Server, uavcan_send}

-- The frames that the socket takes, of those that are written.
abbrev pub taken : List Bool → List Frame → List Frame
taken written [] = []
taken [] (f ∷ rest) = []
taken (ok ∷ written) (f ∷ rest) = (if ok then on_bus f ∷ [] else []) ++ taken written rest

module _ {Ins : Type 0} (can : Canard Ins) (queue : Ins → List Frame) (q : IsQueue can queue) where
  sends :
      (written : List Bool) (frames : List Frame) (s : Server Ins)
      → queue s.canard ≡ frames
      → length frames ≤ length written
      → (s' : Server Ins) × (uavcan_send can written s ≡ some s')
        × (queue s'.canard ≡ [])
        × (s'.bus ≡ s.bus ++ taken written frames)
  unfolding uavcan_send
  sends [] [] s e h = (s, rw (q.peek s.canard ∙ ap first e, uavcan_send), e, sym (append-nil s.bus))
  sends [] (f ∷ rest) s e h = absurd (omega arith)
  sends (ok ∷ written) [] s e h =
      (s, rw (q.peek s.canard ∙ ap first e, uavcan_send), e, sym (append-nil s.bus))
  sends (ok ∷ written) (f ∷ rest) s e h =
      let next : Server Ins = record {
        canard = can.tx_pop s.canard;
        bus = s.bus ++ (if ok then on_bus f ∷ [] else []);
      } in
      let (s', done, empty, went) =
        sends written rest next (q.pop s.canard ∙ ap (drop 1) e) (omega arith) in
      (
        s',
        rw (q.peek s.canard ∙ ap first e, uavcan_send) done,
        empty,
        went ∙ append_assoc s.bus (if ok then on_bus f ∷ [] else []) (taken written rest),
      )

  -- The loop of uavcan_send in fwupdate ends with an empty queue within a write for each frame,
  -- where the transmit queue peeks and pops as a list: the frames that the socket takes go out in
  -- order, and the others are lost.
  pub uavcan_send-empties :
      (written : List Bool) (s : Server Ins)
      → length (queue s.canard) ≤ length written
      → (s' : Server Ins) × (uavcan_send can written s ≡ some s')
        × (queue s'.canard ≡ [])
        × (s'.bus ≡ s.bus ++ taken written (queue s.canard))
  uavcan_send-empties written s h = sends written (queue s.canard) s refl h
