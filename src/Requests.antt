-- ===== src/Requests.antt =====
-- The requests of src/libwlmio/wlmio.c: `wlmio_get_node_info`, `wlmio_register_list`,
-- `wlmio_register_access` and `wlmio_execute_command`.
pub mod Start
pub mod Access
pub mod Command
pub mod Sequence
use libwlmio.Prelude.{
  ℕ, ◌+◌, ◌%◌, ◌&&◌, ◌||◌, not, List, [], ◌∷◌, Option, none, some, Bool, true, false, ◌>>=◌, ◌>>◌,
  ltb, leb, if◌then◌else◌, ℤ, pos, is_zero, neg_einval, neg_enomem, check,
}
use libwlmio.Wire.{le_bytes, emit, read_at}
use libwlmio.State.{World, Canard, Transfer, TransferIds, Callback, request, update}
use libwlmio.Register.{Reg, validate_register_access}
use libwlmio.Register.Request.{request_payload}
use libwlmio.Async.{Answers, async_add}
use libwlmio.Transport.{uavcan_send, make_rsp_specifier}

-- What the calls of the system give during one request: whether there is memory for the payload,
-- what `async_add` meets, and how many frames the socket takes.
pub record RequestAnswers : Type 0 where
  pub payload_memory : Bool
  pub async : Answers
  pub room : ℕ

abbrev pub is_null {ℓ} : {A : Type ℓ} → Option A → Bool
is_null none = true
is_null (some a) = false

-- CANARD_NODE_ID_MAX
abbrev pub node_id_max : ℕ
node_id_max = 127

-- (tfr_ids[node_id] + 1) & 0x1F
abbrev pub next_id : ℕ → ℕ
next_id n = (n + 1) % 32

abbrev pub advance : (ℕ → ℕ) → ℕ → ℕ → ℕ
advance ids node_id = update ids node_id (next_id (ids node_id))

-- `struct CanardTransfer tfr_tx`
abbrev pub tfr_tx : ℕ → ℕ → ℕ → List ℕ → Transfer
tfr_tx port_id node_id transfer_id payload = record {
  transfer_kind = request;
  port_id = port_id;
  remote_node_id = node_id;
  transfer_id = transfer_id;
  payload = payload;
}

-- What a pointer to bytes leads to; it is not read where it is NULL.
abbrev pub characters : Option (List ℕ) → List ℕ
characters none = []
characters (some cs) = cs

-- name == NULL || name[0] == '\0'. A name is given by its characters before the NUL.
abbrev pub no_name : Option (List ℕ) → Bool
no_name none = true
no_name (some []) = true
no_name (some (c ∷ cs)) = false

-- The condition under which `wlmio_register_access` refuses.
unfoldable pub refuses_access : ℕ → Option (List ℕ) → Option Reg → Option ℕ → Bool
refuses_access node_id name regw regr =
    leb node_id_max node_id
    || no_name name
    || is_null regw && is_null regr
    || not (is_null regw) && not (is_zero (validate_register_access regw))

-- The payload of `wlmio_execute_command` in its 115 bytes.
unfoldable pub command_payload : ℕ → List ℕ → ℕ → Option (List ℕ)
command_payload command param param_len = do
  payload ← emit 115 [] (le_bytes 2 command)
  payload ← emit 115 payload ((param_len % 256) ∷ [])
  bytes ← read_at param 0 param_len
  emit 115 payload bytes

module _ {Ins : Type 0} (can : Canard Ins) (os : RequestAnswers) where
  -- The end of each of the four: the push, the next transfer identifier, the task and the frames.
  -- The result of `async_add` is not used.
  unfoldable pub begin :
      Transfer
      → TransferIds
      → Option ℕ
      → Option Callback
      → Option ℕ
      → World Ins
      → Option (ℤ × World Ins)
  begin tfr ids param callback uparam w = do
    let pushed : World Ins = record w { canard = can.tx_push w.canard tfr; tfr_ids = ids }
    (r, waiting) ←
        async_add os.async (make_rsp_specifier tfr) w.timeout param callback uparam pushed
    some (pos 0, uavcan_send can os.room waiting)

  unfoldable pub wlmio_get_node_info :
      ℕ → Option ℕ → Option Callback → Option ℕ → World Ins → Option (ℤ × World Ins)
  unfolding begin
  wlmio_get_node_info node_id node_info callback uparam w =
      let ids = w.tfr_ids in
      if ltb node_id_max node_id || is_null node_info || is_null callback
      then some (neg_einval, w)
      else begin (tfr_tx 430 node_id (ids.node_info node_id) [])
          (record ids { node_info = advance ids.node_info node_id }) node_info callback uparam w

  unfoldable pub wlmio_register_list :
      ℕ → ℕ → Option ℕ → Option Callback → Option ℕ → World Ins → Option (ℤ × World Ins)
  unfolding begin
  wlmio_register_list node_id index name callback uparam w =
      let ids = w.tfr_ids in
      if ltb node_id_max node_id || is_null name
      then some (neg_einval, w)
      else begin (tfr_tx 385 node_id (ids.register_list node_id) (le_bytes 2 index))
          (record ids { register_list = advance ids.register_list node_id }) name callback uparam w

  -- `none` stands for each fault: a payload that malloc did not give is used unchecked.
  unfoldable pub wlmio_register_access :
      ℕ
      → Option (List ℕ)
      → Option Reg
      → Option ℕ
      → Option Callback
      → Option ℕ
      → World Ins
      → Option (ℤ × World Ins)
  unfolding begin refuses_access
  wlmio_register_access node_id name regw regr callback uparam w =
      let ids = w.tfr_ids in
      if refuses_access node_id name regw regr then some (neg_einval, w) else (do
        check os.payload_memory
        payload ← request_payload (characters name) regw
        begin (tfr_tx 384 node_id (ids.register_access node_id) payload)
            (record ids { register_access = advance ids.register_access node_id }) regr callback
            uparam w)

  send_command : ℕ → ℕ → List ℕ → Option Callback → Option ℕ → World Ins → Option (ℤ × World Ins)
  unfolding begin
  send_command node_id command payload callback uparam w =
      let ids = w.tfr_ids in
      begin (tfr_tx 435 node_id (ids.execute_command node_id) payload)
        (record ids { execute_command = advance ids.execute_command node_id }) none callback uparam
        w

  -- `param` is the bytes that the pointer leads to.
  unfoldable pub wlmio_execute_command :
      ℕ → ℕ → Option (List ℕ) → ℕ → Option Callback → Option ℕ → World Ins → Option (ℤ × World Ins)
  unfolding send_command command_payload
  wlmio_execute_command node_id command param param_len callback uparam w =
      if ltb node_id_max node_id || is_null param && ltb 0 param_len
      then some (neg_einval, w)
      else if os.payload_memory
      then (do
        payload ←
            command_payload command (characters param)
              (if ltb 112 param_len then 112 else param_len)
        send_command node_id command payload callback uparam w)
      else some (neg_enomem, w)
