-- ===== src/Responses/Names.antt =====
-- The reply to a request for the name of a register, up to the call of the caller's function.
use libwlmio.Prelude.{
  ℕ, ◌≤◌, ◌≡◌, refl, sym, ◌∙◌, ap, List, [], ◌∷◌, ◌++◌, some, arith, length, drop, pos, lt→ltb,
  subst,
}
use native.Mathlib.Nat.{zero-add}
use libwlmio.Wire.{Dsdl, zeros, copy_to_fits, length-zeros}
use libwlmio.State.{World, Transfer, Task, update}
use libwlmio.Async.{Call, task_with_id}
use libwlmio.Async.Linked.{IsLinked}
use libwlmio.Async.Complete.{Appends, Ended, async_complete-Ended}
use libwlmio.Transport.{make_rsp_specifier}
use libwlmio.Responses.{register_list_response_handler, read_listed_name}
use libwlmio.Responses.Completes.{list_completes}

-- A name in 51 bytes, with zeros behind it.
abbrev pub padded : List ℕ → List ℕ
padded name = name ++ drop (length name) (zeros 51)

read_listed_name-padded :
    (name : List ℕ) → length name ≤ 50 → read_listed_name (length name ∷ name) ≡ some (padded name)
unfolding read_listed_name
read_listed_name-padded [] fits = refl
read_listed_name-padded (c ∷ cs) fits =
    rw (lt→ltb 1 (length (length (c ∷ cs) ∷ c ∷ cs)) (omega arith)) (
      copy_to_fits (zeros 51) 0 (c ∷ cs) (omega (arith, length-zeros 51))
      ∙ ap (λ n. some ((c ∷ cs) ++ drop n (zeros 51))) (zero-add (length (c ∷ cs))))

module _ {Ins : Type 0} (d : Dsdl) (call : Call Ins) (w w' : World Ins) (tfr : Transfer) (c : Task)
    (p : ℕ) where
  -- The caller's array after the reply.
  abbrev pub listed : List ℕ → World Ins
  listed name = record w {
    memory = record w.memory { names = update w.memory.names p (padded name) };
  }

  listed-IsLinked : (name : List ℕ) → IsLinked w → IsLinked (listed name)
  listed-IsLinked name h = record {
    addresses = h.addresses;
    timers_apart = h.timers_apart;
    watched = h.watched;
  }

  -- A reply with the name of a register, of at most 50 bytes and none where there are no further
  -- registers, ends the first task that waits under its specifier: first the caller's array holds
  -- the name and zeros behind it, then the caller's function is called with 0, and then the task
  -- and its timer leave their lists, provided the function returns and only adds to the lists.
  pub register_list_reply :
      (name : List ℕ)
      → IsLinked w
      → task_with_id (make_rsp_specifier tfr) w.tasks ≡ some c
      → c.param ≡ some p
      → tfr.payload ≡ length name ∷ name
      → length name ≤ 50
      → call c.callback (pos 0) c.uparam (listed name) ≡ some w'
      → Appends (listed name) w'
      → Ended (listed name) w' c (register_list_response_handler d call tfr w)
  register_list_reply name h e f sent fits called g =
      subst (Ended (listed name) w' c)
        (sym (
          list_completes d call w tfr c e p f (padded name)
            (ap read_listed_name sent ∙ read_listed_name-padded name fits)))
        (async_complete-Ended call (listed name) w' c (listed-IsLinked name h)
          (make_rsp_specifier tfr) (pos 0) e called g)
