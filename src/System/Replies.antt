-- ===== src/System/Replies.antt =====
-- The invariant through the handlers of replies.
use libwlmio.Prelude.{
  ◌++◌, ◌+◌, [], ◌∷◌, ◌⊎◌, ℕ, ◌/◌, ◌≤◌, ◌≡◌, ◌≢◌, refl, ◌∙◌, ap, subst, List, none, some,
  Bool-cases, Option-cases, inl, inr, ◌==◌, arith, length, pos, neg_enoent, eq_of_some, ltb, drop,
  length-drop, ◌⊎◌, ◌∷◌,
}
use libwlmio.Wire.{Dsdl, IsBytes, copy_to_fits, zeros, length-zeros}
use libwlmio.State.{World, Transfer, Task, Callback}
use libwlmio.Register.Response.{read_response}
use libwlmio.Register.Response.Faults.{Overruns, read_response-none}
use libwlmio.NodeInfo.{read_node_info}
use libwlmio.NodeInfo.Safety.{Sound, read_node_info-Sound}
use libwlmio.Async.{Call, task_with_id}
use libwlmio.Async.Linked.{All-with_id}
use libwlmio.Transport.{make_rsp_specifier}
use libwlmio.Responses.{
  get_node_info_response_handler, register_list_response_handler, register_access_response_handler,
  execute_command_response_handler, read_listed_name,
}
use libwlmio.Responses.Access.{stored}
use libwlmio.Responses.Info.{informed}
use libwlmio.Responses.Completes.{
  access_ignored, list_ignored, info_ignored, access_completes_unread, access_completes,
  info_completes, list_completes, named,
}
use libwlmio.System.{IsLive, HasParam}
use libwlmio.System.Tasks.{Behaves, Settles, async_complete-Settles}

task_with_id_id : (id : ℕ) (l : List Task) (c : Task) → task_with_id id l ≡ some c → c.id ≡ id
unfolding task_with_id
task_with_id_id id [] c h = cc
task_with_id_id id (t ∷ rest) c h = elim (Bool-cases (t.id == id)) [
  | inl hit ↦ subst (λ (x : Task). x.id ≡ id) (eq_of_some (rw hit at h)) (ground arith)
  | inr miss ↦ task_with_id_id id rest c (rw miss at h)
]

-- The service of a reply is in its specifier.
port_of :
    (tfr : Transfer) (port : ℕ)
    → tfr.port_id ≡ port
    → port ≤ 511
    → make_rsp_specifier tfr / 4096 ≡ port
unfolding make_rsp_specifier
port_of tfr port is fits = omega arith

listed_some :
    (payload : List ℕ)
    → length payload ≤ 52
    → (name : List ℕ) × (read_listed_name payload ≡ some name)
unfolding read_listed_name
listed_some payload h = elim (Bool-cases (ltb 1 (length payload))) [
  | inl more ↦ (
    drop 1 payload ++ drop (0 + length (drop 1 payload)) (zeros 51),
    rw more (
        copy_to_fits (zeros 51) 0 (drop 1 payload)
          (omega (arith, length-zeros 51, length-drop 1 payload))),
  )
  | inr few ↦ (zeros 51, rw few)
]

info_some : (d : Dsdl) (payload : List ℕ) → read_node_info d payload ≢ none
info_some d payload p = subst Sound p (read_node_info-Sound d payload)

module _ {Ins : Type 0} (IsSafe : Callback → Type 0) (d : Dsdl) (call : Call Ins)
    (behaves : Behaves IsSafe call) (tfr : Transfer) (w : World Ins) (h : IsLive IsSafe w) where
  -- The pointer of the task that waits for the reply.
  param_of :
      (c : Task) (port : ℕ)
      → task_with_id (make_rsp_specifier tfr) w.tasks ≡ some c
      → tfr.port_id ≡ port
      → (port ≡ 430) ⊎ (port ≡ 385)
      → (p : ℕ) × (c.param ≡ some p)
  param_of c port waits is service = elim (Option-cases c.param) [
    | inr there ↦ there
    | inl missing ↦
        let (a, b) =
          All-with_id HasParam (make_rsp_specifier tfr) w.tasks c h.params waits missing in
        let id = task_with_id_id (make_rsp_specifier tfr) w.tasks c waits in
        elim service [
          | inl q ↦ absurd (a (ap (λ x. x / 4096) id ∙ port_of tfr 430 (is ∙ q) (omega arith)))
          | inr q ↦ absurd (b (ap (λ x. x / 4096) id ∙ port_of tfr 385 (is ∙ q) (omega arith)))
        ]
  ]

  pub execute_command-Settles : Settles IsSafe (execute_command_response_handler d call tfr w)
  unfolding execute_command_response_handler
  execute_command-Settles =
      async_complete-Settles IsSafe call behaves w h (make_rsp_specifier tfr) _

  pub register_access-Settles :
      IsBytes tfr.payload
      → ¬ Overruns tfr.payload
      → Settles IsSafe (register_access_response_handler d call tfr w)
  register_access-Settles bytes fits =
      elim (Option-cases (task_with_id (make_rsp_specifier tfr) w.tasks)) [
        | inl nobody ↦ (w, access_ignored d call w tfr nobody, h)
        | inr (c, waits) ↦ elim (Option-cases (read_response d tfr.payload)) [
          | inl fault ↦ absurd (fits ((read_response-none d tfr.payload bytes).0 fault))
          | inr ((r, regr), read) ↦ elim (Option-cases c.param) [
            | inl there ↦
                let (w', done, live) =
                  async_complete-Settles IsSafe call behaves w h (make_rsp_specifier tfr) r in
                (w', access_completes_unread d call w tfr c waits r regr there read ∙ done, live)
            | inr (p, there) ↦
                let (w', done, live) =
                  async_complete-Settles IsSafe call behaves (stored w p regr) h
                    (make_rsp_specifier tfr) r in
                (w', access_completes d call w tfr c waits p there r regr read ∙ done, live)
          ]
        ]
      ]

  pub register_list-Settles :
      tfr.port_id ≡ 385
      → length tfr.payload ≤ 52
      → Settles IsSafe (register_list_response_handler d call tfr w)
  register_list-Settles port fits =
      elim (Option-cases (task_with_id (make_rsp_specifier tfr) w.tasks)) [
        | inl nobody ↦ (w, list_ignored d call w tfr nobody, h)
        | inr (c, waits) ↦
            let (p, there) = param_of c 385 waits port (inr refl) in
            let (name, listed) = listed_some tfr.payload fits in
            let (w', done, live) =
              async_complete-Settles IsSafe call behaves (named d call w tfr c waits p there name) h
                (make_rsp_specifier tfr) (pos 0) in
            (w', list_completes d call w tfr c waits p there name listed ∙ done, live)
      ]

  pub node_info-Settles :
      tfr.port_id ≡ 430 → Settles IsSafe (get_node_info_response_handler d call tfr w)
  node_info-Settles port = elim (Option-cases (task_with_id (make_rsp_specifier tfr) w.tasks)) [
    | inl nobody ↦
        let (w', done, live) =
          async_complete-Settles IsSafe call behaves w h (make_rsp_specifier tfr) neg_enoent in
        (w', info_ignored d call w tfr nobody ∙ done, live)
    | inr (c, waits) ↦ elim (Option-cases (read_node_info d tfr.payload)) [
      | inl fault ↦ absurd (info_some d tfr.payload fault)
      | inr ((r, info), read) ↦
          let (p, there) = param_of c 430 waits port (inl refl) in
          let (w', done, live) =
            async_complete-Settles IsSafe call behaves (informed w p info) h
              (make_rsp_specifier tfr) r in
          (w', info_completes d call w tfr c waits p there r info read ∙ done, live)
    ]
  ]
