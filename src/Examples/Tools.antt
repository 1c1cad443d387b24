-- ===== src/Examples/Tools.antt =====
-- The command line tools: a download of a firmware file, an uptime, and a value of a register.
use libwlmio.Prelude.{
  ℕ, ◌*◌, ◌≤◌, ◌<◌, ◌≡◌, refl, List, [], ◌∷◌, ◌++◌, none, some, true, false, arith, pos, length,
  drop,
}
use libwlmio.Wire.{le_bytes, zeros, length-zeros}
use libwlmio.Transport.Sending.{first}
use libwlmio.State.{Canard, Frame, Transfer, Status, request, response}
use libwlmio.Register.{Reg, validate_register_access}
use libwlmio.Register.Kind
use libwlmio.Tools.FwUpdate.{Server, uavcan_send, serve}
use libwlmio.Tools.FwUpdate.Replies.{serve-piece}
use libwlmio.Tools.FwUpdate.Download.{IsSender, download, download-file}
use libwlmio.Tools.FwUpdate.Sending.{taken, uavcan_send-empties}
use libwlmio.Tools.Monitor.{Monitor, status_callback}
use libwlmio.Tools.Monitor.Uptime.{Reported, status_callback-Reported}
use libwlmio.Tools.RegTool.{Argument, returns, parse_value, print_register}
use libwlmio.Tools.RegTool.Printing.{halves, parse_value-prints}
use libwlmio.Examples.Setup.{plain, frames, frames-IsQueue, initialised, answers}

abbrev firmware : List ℕ
firmware = 17 ∷ 34 ∷ 51 ∷ []

abbrev idle : Server (List Frame)
idle = record { canard = []; bus = [] }

-- A request for what follows the first byte, with the path "/".
abbrev request_one : Transfer
request_one = record {
  transfer_kind = request;
  port_id = 408;
  remote_node_id = 42;
  transfer_id = 3;
  payload = le_bytes 5 1 ++ (1 ∷ 47 ∷ []);
}

serve-piece_example :
    serve frames plain firmware 42 (true ∷ []) request_one idle
    ≡ uavcan_send frames (true ∷ []) (record idle {
      canard = frames.tx_push [] (record request_one {
        transfer_kind = response;
        payload = 0 ∷ 0 ∷ (le_bytes 2 2 ++ (34 ∷ 51 ∷ []));
      });
    })
serve-piece_example =
    serve-piece frames plain firmware 42 (true ∷ []) request_one 1 (1 ∷ 47 ∷ []) idle refl
      (omega arith)

-- A queue of frames, one for each transfer, with the transfers that were handed over.
abbrev sender : Canard (List Frame × List Transfer)
sender = record {
  tx_push = λ (q, h) t. (frames.tx_push q t, h ++ (t ∷ []));
  tx_peek = λ (q, h). first q;
  tx_pop = λ (q, h). (drop 1 q, h);
  rx_accept = λ i f. (i, none);
}

sender-IsSender : IsSender sender (λ i. i.0) (λ i. i.1) 1
sender-IsSender = record {
  is_queue = record { peek = λ i. refl; pop = λ i. refl };
  frames = λ (q, h) t empty few. rw empty (omega arith);
  push = λ i t. refl;
  pop = λ i. refl;
}

abbrev serving : Server (List Frame × List Transfer)
serving = record { canard = ([], []); bus = [] }

download-file_example :
    (s' : Server (List Frame × List Transfer)) × (download sender plain firmware
        (1 ∷ 47 ∷ [])
        42
        (λ i. i.1)
        (true ∷ [])
        1
        0
        serving
      ≡ some (firmware, s'))
    × (s'.canard.0 ≡ [])
download-file_example =
    download-file sender plain firmware (1 ∷ 47 ∷ []) 42 (λ i. i.0) (λ i. i.1) (true ∷ [])
      sender-IsSender 1 serving refl (omega arith) (omega arith)

abbrev frame_of : ℕ → Frame
frame_of n = record { can_id = n; bytes = [] }

abbrev two_frames : Server (List Frame)
two_frames = record { canard = frame_of 1 ∷ frame_of 2 ∷ []; bus = [] }

uavcan_send-empties_example :
    (s' : Server (List Frame)) × (uavcan_send frames (false ∷ true ∷ []) two_frames ≡ some s')
    × (s'.canard ≡ [])
    × (s'.bus ≡ taken (false ∷ true ∷ []) two_frames.canard)
uavcan_send-empties_example =
    uavcan_send-empties frames (λ q. q) frames-IsQueue (false ∷ true ∷ []) two_frames (omega arith)

abbrev running : Status
running = record { uptime = 93784; health = 1; mode = 0; vendor_status = 5 }

abbrev watching : Monitor (List Frame)
watching = record { world = initialised; infops = λ p. none; printed = [] }

status_callback-Reported_example :
    (after : Monitor (List Frame)) × (status_callback frames answers none 42 running running
        watching
      ≡ some after)
    × Reported 42 running watching after
status_callback-Reported_example =
    status_callback-Reported frames answers none 42 running running watching (λ p. omega arith)
      (λ p. omega arith)

abbrev argument : ℕ → Argument
argument n = record {
  text = [];
  number = record { value = pos n; out_of_range = false; no_digits = false };
}

abbrev arguments : List Argument
arguments = argument 300 ∷ argument 65535 ∷ []

parse_value-prints_example :
    (2 * length arguments ≤ 256
      → (reg : Reg) × (parse_value arguments
            (record { type = Kind.uint16; len = 0; value = zeros 256 })
          ≡ some (returns reg))
        × (validate_register_access (some reg) ≡ pos 0)
        × (print_register (99 ∷ 104 ∷ []) reg
            ≡ some
                (record { name = 99 ∷ 104 ∷ []; type = Kind.uint16; elements = 300 ∷ 65535 ∷ [] })))
    × (256 < 2 * length arguments
        → parse_value arguments (record { type = Kind.uint16; len = 0; value = zeros 256 }) ≡ none)
parse_value-prints_example =
    parse_value-prints Kind.uint16 2 arguments (99 ∷ 104 ∷ []) (zeros 256) 0 halves
      (refl, (refl, tt)) (length-zeros 256)
