-- ===== src/Requests/Command.antt =====
-- The branches of `wlmio_execute_command`.
use libwlmio.Prelude.{
  ℕ, ℤ, ◌≡◌, List, Option, none, some, true, false, ltb, ◌||◌, ◌&&◌, if◌then◌else◌, neg_einval,
  neg_enomem, ◌>>=◌,
}
use libwlmio.State.{World, Canard, Callback}
use libwlmio.Requests.{
  RequestAnswers, begin, is_null, node_id_max, tfr_tx, advance, characters, command_payload,
  wlmio_execute_command, send_command,
}

module _ {Ins : Type 0} (can : Canard Ins) (os : RequestAnswers) (node_id command : ℕ) where
  -- The request, its payload built.
  abbrev pub command_begun :
      Option Callback → Option ℕ → World Ins → List ℕ → Option (ℤ × World Ins)
  command_begun callback uparam w payload =
      begin can os (tfr_tx 435 node_id (w.tfr_ids.execute_command node_id) payload)
        (record w.tfr_ids { execute_command = advance w.tfr_ids.execute_command node_id }) none
        callback uparam w

  module _ (param : Option (List ℕ)) (param_len : ℕ) (callback : Option Callback)
      (uparam : Option ℕ) (w : World Ins) where
    pub command_refused :
        (ltb node_id_max node_id || is_null param && ltb 0 param_len) ≡ true
        → wlmio_execute_command can os node_id command param param_len callback uparam w
          ≡ some (neg_einval, w)
    unfolding wlmio_execute_command
    command_refused denied = rw denied

    module _
        (accepted : (ltb node_id_max node_id || is_null param && ltb 0 param_len) ≡ false) where
      pub command_no_memory :
          os.payload_memory ≡ false
          → wlmio_execute_command can os node_id command param param_len callback uparam w
            ≡ some (neg_enomem, w)
      unfolding wlmio_execute_command
      command_no_memory empty = rw (accepted, empty)

      pub command_sent :
          os.payload_memory ≡ true
          → wlmio_execute_command can os node_id command param param_len callback uparam w ≡ (
              command_payload command
                (characters param)
                (if ltb 112 param_len then 112 else param_len)
              >>= command_begun callback uparam w)
      unfolding wlmio_execute_command send_command
      command_sent memory = rw (accepted, memory)
