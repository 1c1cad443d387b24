-- ===== src/System/Asked.antt =====
-- The invariant through each of the four requests.
use libwlmio.Prelude.{
  ℕ, ℤ, ◌/◌, ◌≡◌, ◌≢◌, refl, sym, ◌∙◌, ap, subst, List, Option, none, some, true, false, Bool,
  Bool-cases, Option-cases, inl, inr, arith, ltb, ◌||◌, ◌&&◌, if◌then◌else◌, eq_of_some, ◌>>=◌,
}
use libwlmio.State.{World, Canard, Transfer, Callback}
use libwlmio.Register.{Reg}
use libwlmio.Register.Request.{request_payload}
use libwlmio.Transport.{make_rsp_specifier}
use libwlmio.Requests.{
  RequestAnswers, is_null, node_id_max, tfr_tx, characters, refuses_access, command_payload,
  wlmio_get_node_info, wlmio_register_list, wlmio_register_access, wlmio_execute_command,
}
use libwlmio.Requests.Command.{command_begun, command_refused, command_no_memory, command_sent}
use libwlmio.System.{IsLive, Extends}
use libwlmio.System.Requests.{IsFresh, GivesParam, same-Extends, returned-Extends}

pub gives_of_some : (id : ℕ) (param : Option ℕ) → is_null param ≡ false → GivesParam id param
gives_of_some id none there missing = absurd (cc there)
gives_of_some id (some p) there missing = absurd (cc missing)

gives_other :
    (tfr : Transfer) (param : Option ℕ) (port : ℕ)
    → tfr.port_id ≡ port
    → (port / 4096 ≡ 0) × (port ≢ 430) × (port ≢ 385) × (port / 512 ≡ 0)
    → GivesParam (make_rsp_specifier tfr) param
unfolding make_rsp_specifier
gives_other tfr param port is (_, a, b, fits) missing =
    ((λ e. a (omega arith)), λ e. b (omega arith))

pub or_false : (a b : Bool) → (a || b) ≡ false → (a ≡ false) × (b ≡ false)
or_false true b h = absurd (cc h)
or_false false b h = (refl, h)

module _ {Ins : Type 0} (IsSafe : Callback → Type 0) (can : Canard Ins) (os : RequestAnswers)
    (callback : Option Callback) (safe : (c : Callback) → callback ≡ some c → IsSafe c)
    (uparam : Option ℕ) (w : World Ins) (h : IsLive IsSafe w) (fresh : IsFresh os.async w) (r : ℤ)
    (w' : World Ins) where
  refused :
      (code : ℤ)
      → ◌≡◌ {A = Option (ℤ × World Ins)} (some (code, w)) (some (r, w'))
      → Extends IsSafe w w'
  refused code e =
      subst (λ (x : ℤ × World Ins). Extends IsSafe w x.1) (eq_of_some e)
        (same-Extends IsSafe w w refl refl h)

  pub get_node_info-Extends :
      (node_id : ℕ) (node_info : Option ℕ)
      → wlmio_get_node_info can os node_id node_info callback uparam w ≡ some (r, w')
      → Extends IsSafe w w'
  unfolding wlmio_get_node_info
  get_node_info-Extends node_id node_info e =
      elim (Bool-cases (ltb node_id_max node_id || is_null node_info || is_null callback)) [
        | inl denied ↦ refused _ (rw denied at e)
        | inr accepted ↦
            let (there, _) = or_false (ltb node_id_max node_id || is_null node_info) _ accepted in
            returned-Extends IsSafe can os _ _ node_info uparam w h callback r w' safe fresh
              (gives_of_some _ node_info (or_false (ltb node_id_max node_id) _ there).1)
              (rw accepted at e)
      ]

  pub register_list-Extends :
      (node_id index : ℕ) (name : Option ℕ)
      → wlmio_register_list can os node_id index name callback uparam w ≡ some (r, w')
      → Extends IsSafe w w'
  unfolding wlmio_register_list
  register_list-Extends node_id index name e =
      elim (Bool-cases (ltb node_id_max node_id || is_null name)) [
        | inl denied ↦ refused _ (rw denied at e)
        | inr accepted ↦
            returned-Extends IsSafe can os _ _ name uparam w h callback r w' safe fresh
              (gives_of_some _ name (or_false (ltb node_id_max node_id) _ accepted).1)
              (rw accepted at e)
      ]

  pub register_access-Extends :
      (node_id : ℕ) (name : Option (List ℕ)) (regw : Option Reg) (regr : Option ℕ)
      → wlmio_register_access can os node_id name regw regr callback uparam w ≡ some (r, w')
      → Extends IsSafe w w'
  unfolding wlmio_register_access
  register_access-Extends node_id name regw regr e =
      elim (Bool-cases (refuses_access node_id name regw regr)) [
        | inl denied ↦ refused _ (rw denied at e)
        | inr accepted ↦ elim (Bool-cases os.payload_memory) [
          | inr fault ↦
              let shown : none ≡ some (r, w') = rw (accepted, fault) at e in absurd (cc shown)
          | inl memory ↦ elim (Option-cases (request_payload (characters name) regw)) [
            | inl fault ↦
                let shown : none ≡ some (r, w') = rw (accepted, memory, fault) at e in
                absurd (cc shown)
            | inr (payload, built) ↦
                returned-Extends IsSafe can os _ _ regr uparam w h callback r w' safe fresh
                  (gives_other (tfr_tx 384 node_id (w.tfr_ids.register_access node_id) payload) regr
                    384 refl (omega arith, (λ p. omega arith), (λ p. omega arith), omega arith))
                  (rw (accepted, memory, built) at e)
          ]
        ]
      ]

  pub execute_command-Extends :
      (node_id command : ℕ) (param : Option (List ℕ)) (param_len : ℕ)
      → wlmio_execute_command can os node_id command param param_len callback uparam w
        ≡ some (r, w')
      → Extends IsSafe w w'
  execute_command-Extends node_id command param param_len e =
      elim (Bool-cases (ltb node_id_max node_id || is_null param && ltb 0 param_len)) [
        | inl denied ↦ refused _ (
            sym (command_refused can os node_id command param param_len callback uparam w denied)
            ∙ e)
        | inr accepted ↦ elim (Bool-cases os.payload_memory) [
          | inr empty ↦ refused _ (
              sym (
                command_no_memory can os node_id command param param_len callback uparam w accepted
                  empty)
              ∙ e)
          | inl memory ↦
              sent memory accepted
                (command_payload command (characters param)
                  (if ltb 112 param_len then 112 else param_len))
                refl
        ]
      ]
    where
      sent :
          os.payload_memory ≡ true
          → (ltb node_id_max node_id || is_null param && ltb 0 param_len) ≡ false
          → (built : Option (List ℕ))
          → command_payload command
              (characters param)
              (if ltb 112 param_len then 112 else param_len)
            ≡ built
          → Extends IsSafe w w'
      sent memory accepted none is =
          let fault =
            command_sent can os node_id command param param_len callback uparam w accepted memory
            ∙ ap
                (λ (p : Option (List ℕ)).
                  p >>= command_begun can os node_id command callback uparam w)
                is in
          let shown : none ≡ some (r, w') = sym fault ∙ e in absurd (cc shown)
      sent memory accepted (some payload) is =
          let begun =
            command_sent can os node_id command param param_len callback uparam w accepted memory
            ∙ ap
                (λ (p : Option (List ℕ)).
                  p >>= command_begun can os node_id command callback uparam w)
                is in
          returned-Extends IsSafe can os _ _ none uparam w h callback r w' safe fresh
            (gives_other (tfr_tx 435 node_id (w.tfr_ids.execute_command node_id) payload) none 435
              refl (omega arith, (λ p. omega arith), (λ p. omega arith), omega arith))
            (sym begun ∙ e)
