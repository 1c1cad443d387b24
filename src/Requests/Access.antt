-- ===== src/Requests/Access.antt =====
-- `wlmio_register_access` as a whole, for a write and for a read.
use libwlmio.Prelude.{
  subst, ℕ, ◌<◌, ◌≡◌, List, [], ◌∷◌, ◌++◌, Option, none, some, false, leb-false, pos, ℤ,
}
use libwlmio.State.{World, Canard, Transfer, TransferIds, Callback}
use libwlmio.Register.{Reg, IsReg, validate_register_access}
use libwlmio.Register.Kind
use libwlmio.Register.Widths.{Widths, Widths-of, valid_iff}
use libwlmio.Register.Layout.{value_layout}
use libwlmio.Register.Request.Format.{
  request_head, value_part, value_part-layout, request_payload-write, request_payload-read,
}
use libwlmio.Async.Linked.{IsLinked}
use libwlmio.Requests.{RequestAnswers, advance, tfr_tx, refuses_access, wlmio_register_access}
use libwlmio.Requests.Start.{
  Ready, waiting_task, started, begin-started, started_lists, started-IsLinked,
}

module _ {Ins : Type 0} (can : Canard Ins) (os : RequestAnswers) (w : World Ins)
    (ready : Ready os w) (linked : IsLinked w) (node_id : ℕ) (node_fits : node_id < 127) (c : ℕ)
    (cs : List ℕ) (callback : Callback) (uparam : Option ℕ) where
  abbrev pub access_ids : TransferIds
  access_ids = record w.tfr_ids { register_access = advance w.tfr_ids.register_access node_id }

  abbrev pub access_tx : List ℕ → Transfer
  access_tx payload = tfr_tx 384 node_id (w.tfr_ids.register_access node_id) payload

  -- The world after the request for `payload`, with the task at the end of the list.
  pub record Asks (payload : List ℕ) (regr : Option ℕ) (after : Option (ℤ × World Ins))
      : Type 0 where
    pub result :
        after
        ≡ some (pos 0, started can os w ready (access_tx payload) access_ids regr callback uparam)
    pub tasks_after :
        (started can os w ready (access_tx payload) access_ids regr callback uparam).tasks
        ≡ w.tasks
          ++ (waiting_task can os w ready (access_tx payload) access_ids regr callback uparam ∷ [])
    pub linked_after :
        IsLinked (started can os w ready (access_tx payload) access_ids regr callback uparam)

  asks :
      (payload : List ℕ) (regr : Option ℕ) (after : Option (ℤ × World Ins))
      → after
        ≡ some (pos 0, started can os w ready (access_tx payload) access_ids regr callback uparam)
      → Asks payload regr after
  asks payload regr after e = record {
    result = e;
    tasks_after =
        (started_lists can os w ready (access_tx payload) access_ids regr callback uparam).0;
    linked_after =
        started-IsLinked can os w ready (access_tx payload) access_ids regr callback uparam linked;
  }

  -- A write, in terms of the tables of widths.
  pub write_tables-Asks :
      (reg : Reg) (wd : Widths reg.type) (regr : Option ℕ)
      → IsReg reg
      → validate_register_access (some reg) ≡ pos 0
      → Asks (request_head (c ∷ cs) reg.type ++ value_part reg wd) regr (
          wlmio_register_access can os node_id
            (some (c ∷ cs))
            (some reg)
            regr
            (some callback)
            uparam
            w)
  unfolding wlmio_register_access
  write_tables-Asks reg wd regr r valid = asks _ regr _ (
      rw (accepted, ready.payload_given, request_payload-write (c ∷ cs) reg wd r valid)
        (begin-started can os w ready (access_tx _) access_ids regr callback uparam))
    where
      accepted : refuses_access node_id (some (c ∷ cs)) (some reg) regr ≡ false
      accepted = rw (leb-false 127 node_id node_fits, valid)

  -- A write of an accepted value to a node below 127 under a name that is not empty returns 0 where
  -- the calls of the system succeed: libcanard is handed the first 50 characters of the name, the
  -- type, the number of elements in as many bytes as uavcan.register.Value has for it, and the
  -- elements, of a bit array those that fill whole bytes; one task is added at the end under the
  -- specifier of the request with the pointers of the caller, and the lists keep their invariant.
  pub write-Asks :
      (reg : Reg) (regr : Option ℕ)
      → IsReg reg
      → validate_register_access (some reg) ≡ pos 0
      → Asks (request_head (c ∷ cs) reg.type ++ value_layout reg) regr (
          wlmio_register_access can os node_id
            (some (c ∷ cs))
            (some reg)
            regr
            (some callback)
            uparam
            w)
  write-Asks reg regr r valid =
      let wd = Widths-of reg.type ((valid_iff reg).0 valid).0 in
      subst
        (λ part. Asks (request_head (c ∷ cs) reg.type ++ part) regr (
          wlmio_register_access can os node_id (some (c ∷ cs)) (some reg) regr (some callback)
            uparam w))
        (value_part-layout reg wd ((valid_iff reg).0 valid).0)
        (write_tables-Asks reg wd regr r valid)

  -- A read goes out with the empty type.
  pub read-Asks :
      (regr : ℕ)
      → Asks (request_head (c ∷ cs) Kind.empty) (some regr) (
          wlmio_register_access can os node_id
            (some (c ∷ cs))
            none
            (some regr)
            (some callback)
            uparam
            w)
  unfolding wlmio_register_access
  read-Asks regr = asks _ (some regr) _ (
      rw (accepted, ready.payload_given, request_payload-read (c ∷ cs))
        (begin-started can os w ready (access_tx _) access_ids (some regr) callback uparam))
    where
      accepted : refuses_access node_id (some (c ∷ cs)) none (some regr) ≡ false
      accepted = rw (leb-false 127 node_id node_fits)
