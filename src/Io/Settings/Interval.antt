-- ===== src/Io/Settings/Interval.antt =====
-- `wlmio_node_set_sample_interval` of src/libwlmio/io.c from the call to the reply that confirms it.
use libwlmio.Prelude.{
  Bool-cases, inl, inr, arith, ℕ, pos, some, none, if◌then◌else◌, ◌==◌, ◌≡◌, ◌<◌, ◌>>=◌, ◌++◌, ◌∷◌,
  [], ◌∙◌, ap, subst, ==_refl, ℤ, Option, neg_ebade, is_neg, List, length, ltb-false,
}
use libwlmio.Wire.{IsBytes, le_bytes, le_value}
use libwlmio.State.{World, Canard, Callback, IntervalContext, Memory}
use libwlmio.Register.Kind
use libwlmio.Register.Widths.{uint16_widths}
use libwlmio.Register.Request.Format.{request_head}
use libwlmio.Async.{Call}
use libwlmio.Async.Linked.{IsLinked}
use libwlmio.Requests.{wlmio_register_access}
use libwlmio.Requests.Start.{Ready, started, started_lists}
use libwlmio.Requests.Access.{access_tx, access_ids, Asks, write_tables-Asks}
use libwlmio.Io.{IoAnswers, put_interval, scalar}
use libwlmio.Io.Read.{number_at}
use libwlmio.Io.Settings.{node_set_sample_interval_callback, wlmio_node_set_sample_interval}
use libwlmio.Io.Write.Half.{half, half-IsReg, half-valid, half_part}

-- The characters of the register's name behind the first.
abbrev pub interval_rest : List ℕ
interval_rest =
    b'a' ∷ b'm' ∷ b'p' ∷ b'l' ∷ b'e' ∷ b'_' ∷ b'i' ∷ b'n' ∷ b't' ∷ b'e' ∷ b'r' ∷ b'v' ∷ b'a' ∷ b'l'
    ∷ []

module _ {Ins : Type 0} (can : Canard Ins) (os : IoAnswers) (node_id : ℕ)
    (node_fits : node_id < 127) (asked p : ℕ) (f : Callback) (uparam : Option ℕ) (w : World Ins)
    (ready : Ready (os.requests 0) w) (linked : IsLinked w) where
  -- The context of the call, in the memory that malloc gave.
  abbrev pub context : IntervalContext
  context = record { sample_interval = os.unset_interval; callback = some f; uparam = uparam }

  abbrev pub with_context : World Ins
  with_context = put_interval p (some context) w

  pub context_ready : Ready (os.requests 0) with_context
  unfolding put_interval
  context_ready = record {
    epoll = ready.epoll;
    task = ready.task;
    timer = ready.timer;
    entry = ready.entry;
    initialised = ready.initialised;
    payload_given = ready.payload_given;
    task_given = ready.task_given;
    timer_given = ready.timer_given;
    timer_set = ready.timer_set;
    entry_given = ready.entry_given;
    task_new = ready.task_new;
    entry_new = ready.entry_new;
  }

  pub context_linked : IsLinked with_context
  unfolding put_interval
  context_linked = record {
    addresses = linked.addresses;
    timers_apart = linked.timers_apart;
    watched = linked.watched;
  }

  -- The world in which the request waits.
  abbrev pub requested : World Ins
  requested =
      started can (os.requests 0) with_context context_ready
        (access_tx can (os.requests 0) with_context context_ready context_linked node_id node_fits
          b's' interval_rest Callback.node_set_sample_interval_callback (some p)
          (request_head (b's' ∷ interval_rest) Kind.uint16 ++ (1 ∷ le_bytes 2 asked)))
        (access_ids can (os.requests 0) with_context context_ready context_linked node_id node_fits
          b's' interval_rest Callback.node_set_sample_interval_callback (some p))
        (some p) Callback.node_set_sample_interval_callback (some p)

  requested_context : requested.memory.intervals p ≡ some context
  unfolding put_interval
  requested_context =
      ap (λ (m : Memory). m.intervals p)
        (started_lists can (os.requests 0) with_context context_ready _ _ (some p)
          Callback.node_set_sample_interval_callback (some p)).2
      ∙ rw (==_refl p)

  read_back :
      (stack : List ℕ)
      → asked < 65536
      → number_at (scalar stack Kind.uint16 (le_bytes 2 asked)).value 0 2 ≡ asked
  unfolding le_bytes le_value
  read_back stack h = omega arith

  requests :
      os.context_memory ≡ some p
      → length os.stack ≡ 256
      → IsBytes os.stack
      → wlmio_node_set_sample_interval can os node_id asked (some f) uparam w
        ≡ some (pos 0, requested)
  unfolding wlmio_node_set_sample_interval
  requests given size bytes =
      simp (ltb-false 127 node_id (omega arith), given)
        (ap
          (λ (o : Option (ℤ × World Ins)).
            o >>= λ (r, w). if is_neg r then some (r, put_interval p none w) else some (pos 0, w))
          (subst
            (λ part.
              Asks can (os.requests 0) with_context context_ready context_linked node_id node_fits
                b's' interval_rest Callback.node_set_sample_interval_callback (some p)
                (request_head (b's' ∷ interval_rest) Kind.uint16 ++ part) (some p)
                (wlmio_register_access can (os.requests 0) node_id (some (b's' ∷ interval_rest))
                  (some (scalar os.stack Kind.uint16 (le_bytes 2 asked))) (some p)
                  (some Callback.node_set_sample_interval_callback) (some p) with_context))
            (half_part os.stack size bytes asked)
            (write_tables-Asks can (os.requests 0) with_context context_ready context_linked node_id
              node_fits b's' interval_rest Callback.node_set_sample_interval_callback (some p)
              (half os.stack size bytes asked) uint16_widths (some p)
              (half-IsReg os.stack size bytes asked)
              (half-valid os.stack size bytes asked))).result)

  confirms :
      (call : Call Ins) (v : World Ins) (stack : List ℕ)
      → asked < 65536
      → v.memory.intervals p ≡ some context
      → v.memory.regs p ≡ scalar stack Kind.uint16 (le_bytes 2 asked)
      → node_set_sample_interval_callback call (pos 0) p v ≡ (
          call f (if asked == os.unset_interval then pos 0 else neg_ebade) uparam v >>= λ v.
          some (put_interval p none v))
  unfolding node_set_sample_interval_callback
  confirms call v stack h e1 e2 = elim (Bool-cases (asked == os.unset_interval)) [
    | inl e ↦ rw (e1, e2, read_back stack h, e)
    | inr e ↦ rw (e1, e2, read_back stack h, e)
  ]

  -- To set an interval below 65536 on a node below 127, wlmio_node_set_sample_interval returns 0
  -- where there is memory for its context and the calls of the system succeed, and asks the node
  -- for the interval. When the node confirms just that interval, the context being as the call left
  -- it, the caller's function is called with -EBADE unless the interval is by chance what the
  -- memory of the context held before; the context is then freed.
  pub wlmio_node_set_sample_interval-confirmed :
      (call : Call Ins) (v : World Ins) (stack : List ℕ)
      → os.context_memory ≡ some p
      → length os.stack ≡ 256
      → IsBytes os.stack
      → asked < 65536
      → v.memory.intervals p ≡ requested.memory.intervals p
      → v.memory.regs p ≡ scalar stack Kind.uint16 (le_bytes 2 asked)
      → (wlmio_node_set_sample_interval can os node_id asked (some f) uparam w
          ≡ some (pos 0, requested))
        × (node_set_sample_interval_callback call (pos 0) p v ≡ (
            call f (if asked == os.unset_interval then pos 0 else neg_ebade) uparam v >>= λ v.
            some (put_interval p none v)))
  wlmio_node_set_sample_interval-confirmed call v stack given size bytes fits kept confirmed =
      (requests given size bytes, confirms call v stack fits (kept ∙ requested_context) confirmed)
