-- ===== src/Tools/FwUpdate.antt =====
-- The firmware update, src/tools/fwupdate.c: it tells a node to update itself and then serves the
-- node's requests for parts of the file.
pub mod Replies
pub mod Download
pub mod Sending
use libwlmio.Prelude.{
  ℕ, ℤ, pos, negsuc, ◌+◌, ◌-◌, ◌*◌, ◌==◌, ltb, leb, List, [], ◌∷◌, ◌++◌, Option, none, some, ◌>>=◌,
  Bool, true, false, if◌then◌else◌, length, take,
}
use libwlmio.Wire.{Dsdl, le_bytes, zeros, copy_to, read_at}
use libwlmio.State.{Canard, Frame, Transfer, request, response}
use libwlmio.Transport.{on_bus}
use libwlmio.Events.{accepted_frame}

-- The file-scope variables, and the frames that the socket took.
pub record Server (Ins : Type 0) : Type 0 where
  pub canard : Ins
  pub bus : List Frame

-- The size of the file, by what read gives; `none` where the tool ends with a message.
unfoldable pub file_size : ℤ → Option ℕ
file_size (negsuc n) = none
file_size (pos n) = if n == 0 then none else if ltb 0x3_8000 n then none else some n

-- The command that starts the update, with the path "/".
abbrev pub update_command : ℕ → Transfer
update_command node_id = record {
  transfer_kind = request;
  port_id = 435;
  remote_node_id = node_id;
  transfer_id = 0;
  payload = 0xfd ∷ 0xff ∷ 0x01 ∷ 0x2f ∷ [];
}

-- How much of the file goes into a reply.
abbrev pub reply_size : ℕ → ℕ → ℕ
reply_size data_len offset =
    let bytes = data_len - offset in
    if leb data_len offset then 0 else if ltb 256 bytes then 256 else bytes

-- memcpy(…, data + offset, bytes), which reads nothing for no bytes.
abbrev pub part : List ℕ → ℕ → ℕ → Option (List ℕ)
part file offset bytes = if bytes == 0 then some [] else read_at file offset bytes

unfoldable pub reply_payload : List ℕ → ℕ → Option (List ℕ)
reply_payload file offset = do
  let bytes = reply_size (length file) offset
  payload ← copy_to (zeros 260) 2 (le_bytes 2 bytes)
  piece ← part file offset bytes
  payload ← copy_to payload 4 piece
  some (take (4 + bytes) payload)

module _ {Ins : Type 0} (can : Canard Ins) where
  -- `written` says of each frame whether the socket takes it; a frame is taken from the queue
  -- before that. Out of answers, it gives none.
  unfoldable pub uavcan_send : List Bool → Server Ins → Option (Server Ins)
  uavcan_send [] s = elim (can.tx_peek s.canard) [ none ↦ some s | some txf ↦ none ]
  uavcan_send (ok ∷ written) s = elim (can.tx_peek s.canard) [
    | none ↦ some s
    | some txf ↦ uavcan_send written (record {
      canard = can.tx_pop s.canard;
      bus = s.bus ++ (if ok then on_bus txf ∷ [] else []);
    })
  ]

  -- The first transfer.
  unfoldable pub start_update : ℕ → List Bool → Server Ins → Option (Server Ins)
  unfolding uavcan_send
  start_update node_id written s =
      uavcan_send written (record s { canard = can.tx_push s.canard (update_command node_id) })

  module _ (d : Dsdl) (file : List ℕ) (node_id : ℕ) where
    -- The body of the loop for a transfer that came. Its port, its kind and its sender are not
    -- looked at.
    unfoldable pub serve : List Bool → Transfer → Server Ins → Option (Server Ins)
    unfolding reply_payload uavcan_send
    serve written tfr s =
        let reply = reply_payload file (d.get_u64 tfr.payload (0 * 8) 40) >>= λ payload.
        uavcan_send written (record s {
          canard = can.tx_push s.canard (record tfr {
            transfer_kind = response;
            remote_node_id = node_id;
            payload = payload;
          });
        }) in
        if length tfr.payload == 0 then some s else reply

    -- One round of the loop, with what read gives.
    unfoldable pub serve_frame : List Bool → Option Frame → Server Ins → Option (Server Ins)
    unfolding serve
    serve_frame written none s = some s
    serve_frame written (some frame) s =
        let (canard, received) = can.rx_accept s.canard (accepted_frame frame) in
        elim received [
          | none ↦ some (record s { canard = canard })
          | some tfr ↦ serve written tfr (record s { canard = canard })
        ]
