-- ===== src/Io/Read.antt =====
-- The reads of src/libwlmio/io.c, `wlmio_vpe6010_read` to `wlmio_vpe6190_read`, and the callbacks
-- that take their replies.
use libwlmio.Prelude.{
  List, Option, [], drop, if◌then◌else◌, is_neg, ltb, neg_einval, neg_eproto, none, not, pos, some,
  take, ℕ, ℤ, ◌*◌, ◌+◌, ◌/◌, ◌==◌, ◌>>=◌, ◌||◌, ◌∷◌,
}
use libwlmio.Wire.{le_value}
use libwlmio.State.{World, Canard, Callback, ReadContext, update}
use libwlmio.Register.Kind
use libwlmio.Async.{Call}
use libwlmio.Requests.{is_null, node_id_max, wlmio_register_access}
use libwlmio.Io.{IoAnswers, channel, put_read, ℕ, List, Option, some, none, drop}

-- The little-endian number that memcpy takes from `n` bytes at `off`.
abbrev pub number_at : List ℕ → ℕ → ℕ → ℕ
number_at value off n = le_value (take n (drop off value))

-- "input"
abbrev pub input_name : List ℕ
input_name = b'i' ∷ b'n' ∷ b'p' ∷ b'u' ∷ b't' ∷ []

-- What a callback does to the object of the caller with the bytes of the register.
abbrev pub Store : Type 0 → Type 0
Store Ins = List ℕ → Option ℕ → World Ins → Option (World Ins)

module _ {Ins : Type 0} where
  unfoldable pub store_half : Store Ins
  store_half value none w = none
  store_half value (some p) w = some (record w {
    memory = record w.memory { halves = update w.memory.halves p (number_at value 0 2) };
  })

  unfoldable pub store_word : Store Ins
  store_word value none w = none
  store_word value (some p) w = some (record w {
    memory = record w.memory { words = update w.memory.words p (number_at value 0 4) };
  })

  -- memcpy(t->input, t->reg.value, 2) to an object of four bytes, of which the upper two stay.
  unfoldable pub store_lower_half : Store Ins
  store_lower_half value none w = none
  store_lower_half value (some p) w = some (record w {
    memory = record w.memory {
      words = update w.memory.words p (w.memory.words p / 65536 * 65536 + number_at value 0 2);
    };
  })

  unfoldable pub store_6010 : Store Ins
  store_6010 value none w = none
  store_6010 value (some p) w = some (record w {
    memory = record w.memory {
      inputs = update w.memory.inputs p (record {
        ma_5v = number_at value 0 2;
        mv_5v = number_at value 2 2;
        mv_24v1 = number_at value 4 2;
        mv_24v2 = number_at value 6 2;
        mv_24v = number_at value 8 2;
        ma_24v = number_at value 10 2;
      });
    };
  })

  -- `exit`: the function of the caller, then the context is freed.
  unfoldable pub finish_read : Call Ins → ℤ → ℕ → ReadContext → World Ins → Option (World Ins)
  finish_read call r p t w = do
    callback ← t.callback
    w ← call callback r t.uparam w
    some (put_read p none w)

  -- `type` and `len` are what the callback asks of the register.
  unfoldable pub read_callback :
      ℕ → ℕ → Store Ins → Call Ins → ℤ → ℕ → World Ins → Option (World Ins)
  read_callback type len store call r p w = do
    t ← w.memory.reads p
    let reg = w.memory.regs p
    let stored = store reg.value t.input w
    if is_neg r
        then finish_read call r p t w
        else if not (reg.type == type) || ltb reg.len len
        then finish_read call neg_eproto p t w
        else (stored >>= finish_read call (pos 0) p t)

  unfoldable pub vpe6010_read_callback : Call Ins → ℤ → ℕ → World Ins → Option (World Ins)
  vpe6010_read_callback = read_callback Kind.uint16 6 store_6010

  unfoldable pub vpe6040_read_callback : Call Ins → ℤ → ℕ → World Ins → Option (World Ins)
  vpe6040_read_callback = read_callback Kind.uint16 1 store_half

  unfoldable pub vpe6060_read_callback : Call Ins → ℤ → ℕ → World Ins → Option (World Ins)
  vpe6060_read_callback = read_callback Kind.uint32 1 store_lower_half

  unfoldable pub vpe6080_read_callback : Call Ins → ℤ → ℕ → World Ins → Option (World Ins)
  vpe6080_read_callback = read_callback Kind.uint16 1 store_half

  unfoldable pub vpe6090_read_callback : Call Ins → ℤ → ℕ → World Ins → Option (World Ins)
  vpe6090_read_callback = read_callback Kind.uint16 1 store_half

  unfoldable pub vpe6180_read_callback : Call Ins → ℤ → ℕ → World Ins → Option (World Ins)
  vpe6180_read_callback = read_callback Kind.uint16 1 store_half

  unfoldable pub vpe6190_read_callback : Call Ins → ℤ → ℕ → World Ins → Option (World Ins)
  vpe6190_read_callback = read_callback Kind.uint32 1 store_word

module _ {Ins : Type 0} (can : Canard Ins) (os : IoAnswers) where
  -- The context is used unchecked, and freed where the request is refused.
  unfoldable pub begin_read :
      Callback → ℕ → Option (List ℕ) → ReadContext → World Ins → Option (ℤ × World Ins)
  begin_read own node_id name t w = do
    p ← os.context_memory
    (r, w) ←
        wlmio_register_access can (os.requests 0) node_id name none (some p) (some own) (some p)
          (put_read p (some t) w)
    if is_neg r then some (r, put_read p none w) else some (pos 0, w)

  -- `last` is the last channel that the check lets pass, `cases` the number of those with a name.
  unfoldable pub read_channel :
      Callback
      → ℕ
      → ℕ
      → ℕ
      → ℕ
      → Option ℕ
      → Option Callback
      → Option ℕ
      → World Ins
      → Option (ℤ × World Ins)
  read_channel own last cases node_id ch v callback uparam w =
      if ltb node_id_max node_id || ltb last ch || is_null v || is_null callback
      then some (neg_einval, w)
      else begin_read own node_id (channel cases input_name ch)
          (record { input = v; callback = callback; uparam = uparam }) w

  unfoldable pub wlmio_vpe6010_read :
      ℕ → Option ℕ → Option Callback → Option ℕ → World Ins → Option (ℤ × World Ins)
  wlmio_vpe6010_read node_id dst callback uparam w =
      if ltb node_id_max node_id || is_null dst
      then some (neg_einval, w)
      else begin_read Callback.vpe6010_read_callback node_id (some input_name)
          (record { input = dst; callback = callback; uparam = uparam }) w

  unfoldable pub wlmio_vpe6040_read :
      ℕ → ℕ → Option ℕ → Option Callback → Option ℕ → World Ins → Option (ℤ × World Ins)
  wlmio_vpe6040_read = read_channel Callback.vpe6040_read_callback 3 4

  unfoldable pub wlmio_vpe6060_read :
      ℕ → ℕ → Option ℕ → Option Callback → Option ℕ → World Ins → Option (ℤ × World Ins)
  wlmio_vpe6060_read = read_channel Callback.vpe6060_read_callback 3 4

  unfoldable pub wlmio_vpe6080_read :
      ℕ → ℕ → Option ℕ → Option Callback → Option ℕ → World Ins → Option (ℤ × World Ins)
  wlmio_vpe6080_read = read_channel Callback.vpe6080_read_callback 7 8

  unfoldable pub wlmio_vpe6090_read :
      ℕ → ℕ → Option ℕ → Option Callback → Option ℕ → World Ins → Option (ℤ × World Ins)
  wlmio_vpe6090_read = read_channel Callback.vpe6090_read_callback 5 6

  unfoldable pub wlmio_vpe6180_read :
      ℕ → ℕ → Option ℕ → Option Callback → Option ℕ → World Ins → Option (ℤ × World Ins)
  wlmio_vpe6180_read = read_channel Callback.vpe6180_read_callback 7 8

  unfoldable pub wlmio_vpe6190_read :
      ℕ → ℕ → Option ℕ → Option Callback → Option ℕ → World Ins → Option (ℤ × World Ins)
  wlmio_vpe6190_read = read_channel Callback.vpe6190_read_callback 3 3
