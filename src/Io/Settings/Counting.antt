-- ===== src/Io/Settings/Counting.antt =====
-- The three replies that a configuration counts.
use libwlmio.Prelude.{
  ℕ, ℤ, pos, is_neg, List, [], ◌∷◌, some, if◌then◌else◌, ◌≡◌, ◌>>=◌, Option, arith, sym,
}
use libwlmio.State.{World, Callback, ConfigureContext}
use libwlmio.Async.{Call}
use libwlmio.Io.{put_configure, none}
use libwlmio.Io.Settings.{counted, vpe6060_configure_callback}

-- The first of the results that is an error, and 0 if none is.
unfoldable pub first_failure : List ℤ → ℤ
first_failure [] = pos 0
first_failure (r ∷ rest) = if is_neg r then r else first_failure rest

-- What `wlmio_vpe6060_configure` allocates.
abbrev pub fresh : Callback → Option ℕ → ConfigureContext
fresh f uparam = record {
  counter = 0;
  cancelled = 0;
  r = pos 0;
  callback = some f;
  uparam = uparam;
}

module _ {Ins : Type 0} (call : Call Ins) (r1 r2 r3 : ℤ) (f : Callback) (uparam : Option ℕ) (p : ℕ)
    (w1 w2 w3 : World Ins) where
  abbrev pub after_one : ConfigureContext
  after_one = counted r1 (fresh f uparam)

  abbrev pub after_two : ConfigureContext
  after_two = counted r2 after_one

  abbrev pub after_three : ConfigureContext
  after_three = counted r3 after_two

  failure_kept : after_three.r ≡ first_failure (r1 ∷ r2 ∷ r3 ∷ [])
  unfolding first_failure
  failure_kept = ground arith

  -- Of the three replies to a configuration of a 6060, whatever happens between them, the first two
  -- are counted and call no function. The third calls the caller's function, with the first error of
  -- the three or with 0, and frees the context.
  pub vpe6060_configure_callback-three :
      w1.memory.configures p ≡ some (fresh f uparam)
      → w2.memory.configures p ≡ some after_one
      → w3.memory.configures p ≡ some after_two
      → (vpe6060_configure_callback call r1 p w1 ≡ some (put_configure p (some after_one) w1))
        × (vpe6060_configure_callback call r2 p w2 ≡ some (put_configure p (some after_two) w2))
        × (vpe6060_configure_callback call r3 p w3 ≡ (
            call f
              (first_failure (r1 ∷ r2 ∷ r3 ∷ []))
              uparam
              (put_configure p (some after_three) w3)
            >>= λ w. some (put_configure p none w)))
  unfolding vpe6060_configure_callback
  vpe6060_configure_callback-three e1 e2 e3 = (rw e1, rw e2, rw (e3, sym failure_kept))
