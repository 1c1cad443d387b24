-- ===== src/Io/Settings.antt =====
-- The settings of src/libwlmio/io.c that take several requests or a reply: `wlmio_vpe6060_configure`,
-- `wlmio_vpe6080_configure`, `wlmio_node_set_sample_interval`, and their callbacks.
pub mod Counting
pub mod Interval
use libwlmio.Prelude.{
  ℕ, ℤ, pos, ◌∷◌, [], ◌+◌, ◌%◌, ◌>>=◌, if◌then◌else◌, ◌&&◌, ◌||◌, ◌==◌, not, Option, none, some,
  List, ltb, is_neg, neg_einval, neg_ebade, neg_enotsup,
}
use libwlmio.Wire.{le_bytes}
use libwlmio.State.{World, Canard, Callback, ConfigureContext, IntervalContext}
use libwlmio.Register.{Reg}
use libwlmio.Register.Kind
use libwlmio.Async.{Call}
use libwlmio.Requests.{is_null, node_id_max, wlmio_register_access}
use libwlmio.Io.{IoAnswers, channel, scalar, put_configure, put_interval}
use libwlmio.Io.Read.{number_at}
use libwlmio.Io.Write.{mode_name, enabled_name, flag}

-- "polarity", "bias", "beta", "t0" and "sample_interval"
abbrev pub polarity_name : List ℕ
polarity_name = b'p' ∷ b'o' ∷ b'l' ∷ b'a' ∷ b'r' ∷ b'i' ∷ b't' ∷ b'y' ∷ []

abbrev pub bias_name : List ℕ
bias_name = b'b' ∷ b'i' ∷ b'a' ∷ b's' ∷ []

abbrev pub beta_name : List ℕ
beta_name = b'b' ∷ b'e' ∷ b't' ∷ b'a' ∷ []

abbrev pub t0_name : List ℕ
t0_name = b't' ∷ b'0' ∷ []

abbrev pub interval_name : List ℕ
interval_name =
    b's' ∷ b'a' ∷ b'm' ∷ b'p' ∷ b'l' ∷ b'e' ∷ b'_' ∷ b'i' ∷ b'n' ∷ b't' ∷ b'e' ∷ b'r' ∷ b'v' ∷ b'a'
    ∷ b'l' ∷ []

-- `t->counter += 1`, and the first failure is kept.
abbrev pub counted : ℤ → ConfigureContext → ConfigureContext
counted r t = record t {
  counter = (t.counter + 1) % 256;
  r = if is_neg r && not (is_neg t.r) then r else t.r;
}

-- What the callback makes of the node's answer.
interval_result : ℤ → Reg → ℕ → ℤ
interval_result r regr sample_interval =
    if is_neg r
    then r
    else if not (regr.type == Kind.uint16) || not (regr.len == 1)
    then neg_enotsup
    else if not (number_at regr.value 0 2 == sample_interval)
    then neg_ebade
    else pos 0

module _ {Ins : Type 0} where
  finish_configure : Call Ins → ℕ → ConfigureContext → World Ins → Option (World Ins)
  finish_configure call p t w = do
    callback ← t.callback
    w ← call callback t.r t.uparam w
    some (put_configure p none w)

  configure_callback : Call Ins → ℤ → ℕ → World Ins → Option (World Ins)
  unfolding finish_configure
  configure_callback call r p w = do
    t ← w.memory.configures p
    let now = counted r t
    let w : World Ins = put_configure p (some now) w
    if ltb (now.counter + now.cancelled) 3 then some w else finish_configure call p now w

  unfoldable pub vpe6060_configure_callback : Call Ins → ℤ → ℕ → World Ins → Option (World Ins)
  unfolding configure_callback
  vpe6060_configure_callback = configure_callback

  unfoldable pub vpe6080_configure_callback : Call Ins → ℤ → ℕ → World Ins → Option (World Ins)
  unfolding configure_callback
  vpe6080_configure_callback = configure_callback

  finish_interval : Call Ins → ℤ → ℕ → IntervalContext → World Ins → Option (World Ins)
  finish_interval call r p t w = do
    callback ← t.callback
    w ← call callback r t.uparam w
    some (put_interval p none w)

  unfoldable pub node_set_sample_interval_callback :
      Call Ins → ℤ → ℕ → World Ins → Option (World Ins)
  unfolding finish_interval interval_result
  node_set_sample_interval_callback call r p w = do
    t ← w.memory.intervals p
    finish_interval call (interval_result r (w.memory.regs p) t.sample_interval) p t w

-- One of the three requests of a configuration: the name and the value.
pub record Setting : Type 0 where
  pub name : Option (List ℕ)
  pub value : Reg

module _ {Ins : Type 0} (can : Canard Ins) (os : IoAnswers) (own : Callback) (node_id p : ℕ) where
  request_setting : ℕ → Setting → World Ins → Option (ℤ × World Ins)
  request_setting i s w =
      wlmio_register_access can (os.requests i) node_id s.name (some s.value) none (some own)
        (some p) w

  -- `t->cancelled += 1`, a fault where the context was freed, and the result of the request.
  cancel : ℤ → Option ConfigureContext → World Ins → Option (ℤ × World Ins)
  cancel r none w = none
  cancel r (some t) w =
      some (r, put_configure p (some (record t { cancelled = (t.cancelled + 1) % 256 })) w)

  request_third : Setting → World Ins → Option (ℤ × World Ins)
  unfolding request_setting cancel
  request_third c w = do
    (r, w) ← request_setting 2 c w
    if is_neg r then cancel r (w.memory.configures p) w else some (pos 0, w)

  request_second : Setting → Setting → World Ins → Option (ℤ × World Ins)
  unfolding request_setting request_third cancel
  request_second b c w = do
    (r, w) ← request_setting 1 b w
    if is_neg r then cancel r (w.memory.configures p) w else request_third c w

  -- The three requests, up to the first that is refused.
  request_settings : Setting → Setting → Setting → World Ins → Option (ℤ × World Ins)
  unfolding request_setting request_second
  request_settings a b c w = do
    (r, w) ← request_setting 0 a w
    if is_neg r then some (r, put_configure p none w) else request_second b c w

module _ {Ins : Type 0} (can : Canard Ins) (os : IoAnswers) where
  setting : ℕ → List ℕ → ℕ → ℕ → ℕ → ℕ → Setting
  setting cases name ch type width v = record {
    name = channel cases name ch;
    value = scalar os.stack type (le_bytes width v);
  }

  begin_configure :
      Callback
      → ℕ
      → Option Callback
      → Option ℕ
      → Setting
      → Setting
      → Setting
      → World Ins
      → Option (ℤ × World Ins)
  unfolding request_settings
  begin_configure own node_id callback uparam a b c w = do
    p ← os.context_memory
    let fresh : ConfigureContext = record {
      counter = 0;
      cancelled = 0;
      r = pos 0;
      callback = callback;
      uparam = uparam;
    }
    request_settings can os own node_id p a b c (put_configure p (some fresh) w)

  -- The limits are WLMIO_VPE6060_MODE_PULSE_COUNTER, WLMIO_VPE6060_POLARITY_FALLING and
  -- WLMIO_VPE6060_BIAS_NPN.
  unfoldable pub wlmio_vpe6060_configure :
      ℕ → ℕ → ℕ → ℕ → ℕ → Option Callback → Option ℕ → World Ins → Option (ℤ × World Ins)
  unfolding begin_configure setting
  wlmio_vpe6060_configure node_id ch mode polarity bias callback uparam w =
      if ltb node_id_max node_id
        || ltb 3 ch
        || ltb 2 mode
        || ltb 1 polarity
        || ltb 2 bias
        || is_null callback
      then some (neg_einval, w)
      else begin_configure Callback.vpe6060_configure_callback node_id callback uparam
          (setting 4 mode_name ch Kind.uint8 1 mode)
          (setting 4 polarity_name ch Kind.uint8 1 polarity)
          (setting 4 bias_name ch Kind.uint8 1 bias) w

  unfoldable pub wlmio_vpe6080_configure :
      ℕ → ℕ → ℕ → ℕ → ℕ → Option Callback → Option ℕ → World Ins → Option (ℤ × World Ins)
  unfolding begin_configure setting
  wlmio_vpe6080_configure node_id ch enabled beta t0 callback uparam w =
      if ltb node_id_max node_id || ltb 7 ch || is_null callback
      then some (neg_einval, w)
      else begin_configure Callback.vpe6080_configure_callback node_id callback uparam
          (setting 8 enabled_name ch Kind.uint8 1 (flag enabled))
          (setting 8 beta_name ch Kind.uint16 2 beta) (setting 8 t0_name ch Kind.uint16 2 t0) w

  begin_interval : ℕ → ℕ → Option Callback → Option ℕ → World Ins → Option (ℤ × World Ins)
  begin_interval node_id sample_interval callback uparam w = do
    p ← os.context_memory
    let fresh : IntervalContext = record {
      sample_interval = os.unset_interval;
      callback = callback;
      uparam = uparam;
    }
    (r, w) ←
        wlmio_register_access can (os.requests 0) node_id (some interval_name)
          (some (scalar os.stack Kind.uint16 (le_bytes 2 sample_interval))) (some p)
          (some Callback.node_set_sample_interval_callback) (some p) (put_interval p (some fresh) w)
    if is_neg r then some (r, put_interval p none w) else some (pos 0, w)

  -- The `sample_interval` of the context is not set.
  unfoldable pub wlmio_node_set_sample_interval :
      ℕ → ℕ → Option Callback → Option ℕ → World Ins → Option (ℤ × World Ins)
  unfolding begin_interval
  wlmio_node_set_sample_interval node_id sample_interval callback uparam w =
      if ltb node_id_max node_id || is_null callback
      then some (neg_einval, w)
      else begin_interval node_id sample_interval callback uparam w
