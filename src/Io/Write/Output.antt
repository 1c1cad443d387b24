-- ===== src/Io/Write/Output.antt =====
-- What `wlmio_vpe6050_write` of src/libwlmio/io.c sends.
use libwlmio.Prelude.{
  ℕ, ◌<◌, ◌≤◌, ◌≡◌, subst, List, ◌∷◌, ◌++◌, Option, none, some, arith, length, ◌+◌, ltb-false,
  lt→ltb,
}
use libwlmio.Wire.{IsBytes, le_bytes}
use libwlmio.State.{World, Canard, Callback}
use libwlmio.Register.Kind
use libwlmio.Register.Widths.{uint16_widths}
use libwlmio.Register.Request.Format.{request_head}
use libwlmio.Async.Linked.{IsLinked}
use libwlmio.Requests.{wlmio_register_access}
use libwlmio.Requests.Start.{Ready}
use libwlmio.Requests.Access.{Asks, write_tables-Asks}
use libwlmio.Io.{IoAnswers, channel, scalar}
use libwlmio.Io.Write.Half.{half, half-IsReg, half-valid, half_part}
use libwlmio.Io.Write.{output_name, write_scalar, write_output, wlmio_vpe6050_write}

-- "ch1.output" and so on, without its first letter.
abbrev pub output_rest : ℕ → List ℕ
output_rest ch = b'h' ∷ (b'1' + ch) ∷ b'.' ∷ output_name

-- A write of a number to a channel 0 to 3 of a 6050, on a node below 127, returns 0 where the calls of
-- the system succeed. The request that goes to libcanard is the name of the channel's output and one
-- 16-bit number, whatever the rest of the buffer on the stack holds; one task is added at the end,
-- with the function of the caller, and the lists keep their invariant.
pub wlmio_vpe6050_write-Asks :
    {Ins : Type 0} (can : Canard Ins) (os : IoAnswers) (w : World Ins)
    (ready : Ready (os.requests 0) w) (linked : IsLinked w) (node_id ch v : ℕ)
    (node_fits : node_id < 127) (callback : Callback) (uparam : Option ℕ)
    → ch ≤ 3
    → length os.stack ≡ 256
    → IsBytes os.stack
    → Asks can
        (os.requests 0)
        w
        ready
        linked
        node_id
        node_fits
        b'c'
        (output_rest ch)
        callback
        uparam
        (request_head (b'c' ∷ output_rest ch) Kind.uint16 ++ (1 ∷ le_bytes 2 v))
        none
        (wlmio_vpe6050_write can os node_id ch v (some callback) uparam w)
unfolding wlmio_vpe6050_write write_output write_scalar channel
wlmio_vpe6050_write-Asks can os w ready linked node_id ch v node_fits callback uparam fits size
      bytes =
    rw (ltb-false 127 node_id (omega arith), ltb-false 3 ch fits, lt→ltb ch 4 (omega arith))
      (subst
        (λ part.
          Asks can (os.requests 0) w ready linked node_id node_fits b'c' (output_rest ch) callback
            uparam (request_head (b'c' ∷ output_rest ch) Kind.uint16 ++ part) none
            (wlmio_register_access can (os.requests 0) node_id (some (b'c' ∷ output_rest ch))
              (some (scalar os.stack Kind.uint16 (le_bytes 2 v))) none (some callback) uparam w))
        (half_part os.stack size bytes v)
        (write_tables-Asks can (os.requests 0) w ready linked node_id node_fits b'c'
          (output_rest ch) callback uparam (half os.stack size bytes v) uint16_widths none
          (half-IsReg os.stack size bytes v) (half-valid os.stack size bytes v)))
