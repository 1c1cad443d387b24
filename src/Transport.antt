-- ===== src/Transport.antt =====
-- Transfers out of the library: `uavcan_send` and `make_rsp_specifier` of src/libwlmio/wlmio.c.
pub mod Sending
pub mod Specifier
use Prim.Native.Nat.{bit_or}
use libwlmio.Prelude.{ℕ, zero, suc, ◌+◌, ◌*◌, ◌%◌, List, [], ◌∷◌, ◌++◌, none, some}
use libwlmio.State.{Transfer, Frame, Canard, World}

-- The frame as the socket is given it: an extended identifier.
abbrev pub on_bus : Frame → Frame
on_bus txf = record txf { can_id = bit_or txf.can_id 0x8000_0000 }

-- `room` frames go out before `send` fails. A frame leaves the queue after it went out.
unfoldable pub uavcan_send : {Ins : Type 0} → Canard Ins → ℕ → World Ins → World Ins
uavcan_send can zero w = w
uavcan_send can (suc room) w = elim (can.tx_peek w.canard) [
  | none ↦ w
  | some txf ↦
      uavcan_send can room
        (record w { bus = w.bus ++ (on_bus txf ∷ []); canard = can.tx_pop w.canard })
]

-- The masked fields do not overlap, so that `|` is a sum.
unfoldable pub make_rsp_specifier : Transfer → ℕ
make_rsp_specifier tfr =
    tfr.remote_node_id % 128 + tfr.transfer_id % 32 * 128 + tfr.port_id % 512 * 4096
