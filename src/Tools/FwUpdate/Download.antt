-- ===== src/Tools/FwUpdate/Download.antt =====
-- A node that asks for one part of the file after the other.
use libwlmio.Prelude.{
  ℕ, zero, suc, ◌+◌, ◌*◌, ◌/◌, ◌%◌, ◌^◌, ◌≤◌, ◌<◌, ◌≡◌, refl, sym, ◌∙◌, ap, List, [], ◌∷◌, ◌++◌,
  Option, none, some, arith, length, take, drop, length-take, length-drop, drop-drop, drop-append,
  take_all, Bool, true, false, eq_of_some, Bool-cases, inl, inr, ltb, ◌==◌, ==_refl, ◌&&◌,
  if◌then◌else◌, ◌>>=◌, Option-cases,
}
use libwlmio.Wire.{Dsdl, le_bytes}
use libwlmio.State.{Canard, Frame, Transfer, TransferKind, request, response}
use libwlmio.Transport.Sending.{IsQueue}
use libwlmio.Tools.FwUpdate.{Server, uavcan_send, serve}
use libwlmio.Tools.FwUpdate.Sending.{uavcan_send-empties}
use libwlmio.Tools.FwUpdate.Replies.{piece, serve-piece}

-- libcanard with its queue of frames and the transfers that it was handed so far, in order. What
-- canard.h says of them: a transfer of at most 260 bytes takes at most `most` frames in the queue,
-- and taking a frame off the queue hands it nothing.
pub record IsSender {Ins : Type 0} (can : Canard Ins) (queue : Ins → List Frame)
    (handed : Ins → List Transfer) (most : ℕ) : Type 0 where
  pub is_queue : IsQueue can queue
  pub frames :
      (i : Ins) (t : Transfer)
      → queue i ≡ []
      → length t.payload ≤ 260
      → length (queue (can.tx_push i t)) ≤ most
  pub push : (i : Ins) (t : Transfer) → handed (can.tx_push i t) ≡ handed i ++ (t ∷ [])
  pub pop : (i : Ins) → handed (can.tx_pop i) ≡ handed i

abbrev pub is_reply : TransferKind → Bool
is_reply response = true
is_reply _ = false

-- The bytes of the file in a reply to a request of the node, behind an error and a size. None where
-- it is not the one reply to that request.
abbrev pub reply_bytes : Transfer → List Transfer → Option (List ℕ)
reply_bytes tfr (t ∷ []) =
    if is_reply t.transfer_kind
      && (t.port_id == tfr.port_id
          && (t.transfer_id == tfr.transfer_id && t.remote_node_id == tfr.remote_node_id))
    then some (drop 4 t.payload)
    else none
reply_bytes tfr _ = none

module _ {Ins : Type 0} (can : Canard Ins) (d : Dsdl) (file path : List ℕ) (node_id : ℕ)
    (handed : Ins → List Transfer) (written : List Bool) where
  -- The request of the node for what follows `offset`, its identifiers counting up.
  abbrev pub read_file : ℕ → Transfer
  read_file offset = record {
    transfer_kind = request;
    port_id = 408;
    remote_node_id = node_id;
    transfer_id = offset / 256 % 32;
    payload = le_bytes 5 offset ++ path;
  }

  -- fwupdate serves the request, and the node takes what it hands to libcanard meanwhile.
  unfoldable pub ask : ℕ → Server Ins → Option (List ℕ × Server Ins)
  ask offset s = do
    s' ← serve can d file node_id written (read_file offset) s
    bytes ← reply_bytes (read_file offset) (drop (length (handed s.canard)) (handed s'.canard))
    some (bytes, s')

  -- Requests until a reply is shorter than 256 bytes; none if that takes more than `rounds`.
  unfoldable pub download : ℕ → ℕ → Server Ins → Option (List ℕ × Server Ins)
  unfolding ask
  download zero offset s = none
  download (suc rounds) offset s = do
    (bytes, s) ← ask offset s
    let rest = download rounds (offset + 256) s >>= λ (more, s). some (bytes ++ more, s)
    if ltb (length bytes) 256 then some (bytes, s) else rest

split : (n : ℕ) (l : List ℕ) → take n l ++ drop n l ≡ l
split zero l = refl
split (suc n) [] = refl
split (suc n) (x ∷ l) = ap (λ t. x ∷ t) (split n l)

uavcan_send-handed :
    {Ins : Type 0} (can : Canard Ins) (handed : Ins → List Transfer)
    (pop : (i : Ins) → handed (can.tx_pop i) ≡ handed i) (written : List Bool) (s s' : Server Ins)
    → uavcan_send can written s ≡ some s'
    → handed s'.canard ≡ handed s.canard
unfolding uavcan_send
uavcan_send-handed can handed pop [] s s' e = elim (Option-cases (can.tx_peek s.canard)) [
  | inl none_left ↦
      ap (λ (t : Server _). handed t.canard) (sym (eq_of_some (rw (none_left, uavcan_send) at e)))
  | inr (f, top) ↦ let stops : none ≡ some s' = rw (top, uavcan_send) at e in cc
]
uavcan_send-handed can handed pop (ok ∷ written) s s' e =
    elim (Option-cases (can.tx_peek s.canard)) [
      | inl none_left ↦
          ap (λ (t : Server _). handed t.canard)
            (sym (eq_of_some (rw (none_left, uavcan_send) at e)))
      | inr (f, top) ↦
          uavcan_send-handed can handed pop written _ s' (rw (top, uavcan_send) at e) ∙ pop s.canard
    ]

module _ {Ins : Type 0} (can : Canard Ins) (d : Dsdl) (file path : List ℕ) (node_id : ℕ)
    (queue : Ins → List Frame) (handed : Ins → List Transfer) (written : List Bool)
    (sender : IsSender can queue handed (length written)) where
  ask-piece :
      (offset : ℕ) (s : Server Ins)
      → offset < 2 ^ 40
      → queue s.canard ≡ []
      → (s' : Server Ins) × (ask can d file path node_id handed written offset s
          ≡ some (piece file offset, s'))
        × (queue s'.canard ≡ [])
  unfolding ask le_bytes
  ask-piece offset s fits empty =
      let tfr = read_file can d file path node_id handed written offset in
      let reply : Transfer = record tfr {
        transfer_kind = response;
        payload = 0 ∷ 0 ∷ (le_bytes 2 (length (piece file offset)) ++ piece file offset);
      } in
      let pushed : Server Ins = record s { canard = can.tx_push s.canard reply } in
      let few : length reply.payload ≤ 260 = omega (arith, length-take 256 (drop offset file)) in
      let (s', done, sent, _) =
        uavcan_send-empties can queue sender.is_queue written pushed
          (sender.frames s.canard reply empty few) in
      let told : handed s'.canard ≡ handed s.canard ++ (reply ∷ []) =
        uavcan_send-handed can handed sender.pop written pushed s' done
        ∙ sender.push s.canard reply in
      (
        s',
        rw (
          serve-piece can d file node_id written tfr offset path s refl fits,
          done,
          told,
          drop-append (length (handed s.canard)) (handed s.canard) (reply ∷ []) refl,
          ==_refl (offset / 256 % 32),
          ==_refl node_id,
        ),
        sent,
      )

  download_from :
      (rounds offset : ℕ) (s : Server Ins)
      → length file < offset + 256 * rounds
      → length file < 2 ^ 39
      → offset ≤ length file
      → queue s.canard ≡ []
      → (s' : Server Ins) × (download can d file path node_id handed written rounds offset s
          ≡ some (drop offset file, s'))
        × (queue s'.canard ≡ [])
  unfolding download
  download_from zero offset s enough small within empty = absurd (omega arith)
  download_from (suc rounds) offset s enough small within empty =
      let (v, asked, sent) = ask-piece offset s (omega arith) empty in
      elim (Bool-cases (ltb (length (piece file offset)) 256)) [
        | inl last ↦
            let all : piece file offset ≡ drop offset file =
              take_all 256 (drop offset file)
                (ground (arith, length-take 256 (drop offset file))) in
            (v, rw (asked, last, all), sent)
        | inr more ↦
            let full : 256 ≤ length (piece file offset) = ground arith in
            let (s', later, done) =
              download_from rounds (offset + 256) v (omega arith) small
                (omega (arith, length-take 256 (drop offset file), length-drop offset file)) sent in
            (
              s',
              rw (asked, more, later)
                  (ap (λ l. some (l, s'))
                    (ap (λ l. piece file offset ++ l) (sym (drop-drop 256 offset file))
                      ∙ split 256 (drop offset file))),
              done,
            )
      ]

  -- A node asks fwupdate for the file from its start on, with any path, 256 bytes at a time until a
  -- reply has fewer: fwupdate serves every request without a fault, and each time hands libcanard
  -- the one reply under the request's port and identifier, for the node. Put together, these
  -- replies are exactly the file, of at most 0x38000 bytes, within one request for each 256 bytes
  -- of it and one more. The transmit queue, empty at the start, peeks and pops as a list, and
  -- uavcan_send can write as many frames as a reply takes.
  pub download-file :
      (rounds : ℕ) (s : Server Ins)
      → queue s.canard ≡ []
      → length file ≤ 0x3_8000
      → length file < 256 * rounds
      → (s' : Server Ins) × (download can d file path node_id handed written rounds 0 s
          ≡ some (file, s'))
        × (queue s'.canard ≡ [])
  download-file rounds s empty small enough =
      download_from rounds 0 s (omega arith) (omega arith) (omega arith) empty
