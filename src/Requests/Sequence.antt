-- ===== src/Requests/Sequence.antt =====
-- The transfer identifiers of the requests for node information to one node.
use libwlmio.Prelude.{
  ℕ, ℤ, zero, suc, ◌+◌, ◌%◌, ◌<◌, ◌≡◌, ◌↔◌, refl, sym, ◌∙◌, ap, [], ◌∷◌, ◌++◌, Option, some, arith,
  pos, ltb-false, eq_of_some,
}
use libwlmio.State.{World, Canard, Transfer, TransferIds, Task, Callback}
use libwlmio.Heartbeat.Tracking.{update_same}
use libwlmio.Transport.Specifier.{make_rsp_specifier-eq}
use libwlmio.Requests.{next_id, advance, tfr_tx, RequestAnswers, wlmio_get_node_info}
use libwlmio.Requests.Start.{Ready, waiting_task, started, started_lists, begin-started}

-- A request that is made in a state, where the calls of the system succeed.
pub record Inquiry {Ins : Type 0} (w : World Ins) : Type 0 where
  pub os : RequestAnswers
  pub ready : Ready os w
  pub node_info : ℕ
  pub callback : Callback
  pub uparam : Option ℕ

module _ {Ins : Type 0} (can : Canard Ins) (node : ℕ) where
  -- The call.
  abbrev pub inquire : (w : World Ins) → Inquiry w → Option (ℤ × World Ins)
  inquire w q = wlmio_get_node_info can q.os node (some q.node_info) (some q.callback) q.uparam w

  -- From one state to another by so many calls; what else happens leaves the node's identifier.
  pub data Inquiries (w : World Ins) : ℕ → World Ins → Type 0 where
    starts : Inquiries w zero w
    inquires :
        {n : ℕ} {v v' : World Ins} {r : ℤ}
        → Inquiries w n v
        → (q : Inquiry v) → inquire v q ≡ some (r, v')
        → Inquiries w (suc n) v'
    otherwise :
        {n : ℕ} {v v' : World Ins}
        → Inquiries w n v
        → v'.tfr_ids.node_info node ≡ v.tfr_ids.node_info node
        → Inquiries w n v'

  module _ (node_fits : node < 128) where
    abbrev pub transfer : World Ins → Transfer
    transfer w = tfr_tx 430 node (w.tfr_ids.node_info node) []

    abbrev pub next_ids : World Ins → TransferIds
    next_ids w = record w.tfr_ids { node_info = advance w.tfr_ids.node_info node }

    -- The task of a call.
    abbrev pub inquiry_task : (w : World Ins) → Inquiry w → Task
    inquiry_task w q =
        waiting_task can q.os w q.ready (transfer w) (next_ids w) (some q.node_info) q.callback
          q.uparam

    abbrev pub asked : (w : World Ins) → Inquiry w → World Ins
    asked w q =
        started can q.os w q.ready (transfer w) (next_ids w) (some q.node_info) q.callback q.uparam

    pub inquire-asked : (w : World Ins) (q : Inquiry w) → inquire w q ≡ some (pos 0, asked w q)
    unfolding wlmio_get_node_info
    inquire-asked w q = rw (ltb-false 127 node (omega arith)) (
        begin-started can q.os w q.ready (transfer w) (next_ids w) (some q.node_info) q.callback
          q.uparam)

    asked_lists :
        (w : World Ins) (q : Inquiry w)
        → ((asked w q).tasks ≡ w.tasks ++ (inquiry_task w q ∷ []))
          × ((asked w q).tfr_ids ≡ next_ids w)
    asked_lists w q =
        let (tasks, ids, _) =
          started_lists can q.os w q.ready (transfer w) (next_ids w) (some q.node_info) q.callback
            q.uparam in
        (tasks, ids)

    -- The identifier of the next request after `n` others.
    Inquiries-count :
        (w : World Ins)
        → w.tfr_ids.node_info node < 32
        → (n : ℕ) (v : World Ins) → Inquiries w n v
        → v.tfr_ids.node_info node ≡ (w.tfr_ids.node_info node + n) % 32
    Inquiries-count w fits _ _ starts = omega arith
    Inquiries-count w fits _ v' (inquires {n = n} {v = v} {r = r} path q e) =
        let before = Inquiries-count w fits n v path in
        let same : asked v q ≡ v' =
          ap (λ (x : ℤ × World Ins). x.1) (eq_of_some (sym (inquire-asked v q) ∙ e)) in
        let next : v'.tfr_ids.node_info node ≡ next_id (v.tfr_ids.node_info node) =
          ap (λ (u : World Ins). u.tfr_ids.node_info node) (sym same)
          ∙ ap (λ (ids : TransferIds). ids.node_info node) (asked_lists v q).1
          ∙ update_same v.tfr_ids.node_info node (next_id (v.tfr_ids.node_info node)) in
        omega (arith, before, next)
    Inquiries-count w fits n v' (otherwise {v = v} path same) =
        same ∙ Inquiries-count w fits n v path

    -- What a call does, as the code runs it: it returns 0 and adds its task.
    pub record Waits (w : World Ins) (q : Inquiry w) : Type 0 where
      pub after : World Ins
      pub result : inquire w q ≡ some (pos 0, after)
      pub tasks_after : after.tasks ≡ w.tasks ++ (inquiry_task w q ∷ [])

    waits : (w : World Ins) (q : Inquiry w) → Waits w q
    waits w q = record {
      after = asked w q;
      result = inquire-asked w q;
      tasks_after = (asked_lists w q).0;
    }

    -- Of the requests for node information to a node 0 to 127 that are made where the calls of the
    -- system succeed, after identifiers below 32 and whatever happens between them that leaves the
    -- node's identifier alone, each returns 0 and adds a task at the end, and two of these tasks
    -- wait under the same specifier exactly when the number of requests between them is a multiple
    -- of 32.
    pub wlmio_get_node_info-repeats :
        (n m : ℕ) (w v u : World Ins) (p : Inquiry v) (q : Inquiry u)
        → w.tfr_ids.node_info node < 32
        → Inquiries w n v
        → Inquiries w m u
        → Waits v p
          × Waits u q
          × (((inquiry_task v p).id ≡ (inquiry_task u q).id) ↔ (n % 32 ≡ m % 32))
    wlmio_get_node_info-repeats n m w v u p q fits path other =
        let first = Inquiries-count w fits n v path in
        let second = Inquiries-count w fits m u other in
        let (same, _) =
          make_rsp_specifier-eq (transfer v) (transfer u)
            (record {
              node_fits = node_fits;
              transfer_fits = omega (arith, first);
              port_fits = omega arith;
            })
            (record {
              node_fits = node_fits;
              transfer_fits = omega (arith, second);
              port_fits = omega arith;
            }) in
        (
          waits v p,
          waits u q,
          (
            (λ e. omega (arith, first, second, (same.0 e).1)),
            λ e. same.1 (refl, omega (arith, first, second), refl),
          ),
        )
