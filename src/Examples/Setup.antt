-- ===== src/Examples/Setup.antt =====
-- A world to run in: reading functions for payloads, a queue of frames for libcanard, and a library
-- that was just initialised.
use libwlmio.Prelude.{
  ℕ, ◌*◌, ◌/◌, ◌%◌, ◌^◌, ◌≡◌, refl, List, [], ◌∷◌, ◌++◌, none, some, true, false, pos, arith, drop,
  ap,
}
use libwlmio.Wire.{Dsdl, le_value, zeros}
use libwlmio.State.{World, Canard, Frame, FdEntry, can_socket_handler, offline}
use libwlmio.Register.{zero_reg}
use libwlmio.NodeInfo.{zero_info}
use libwlmio.Async.{Call}
use libwlmio.Requests.{RequestAnswers}
use libwlmio.Transport.Sending.{IsQueue, first}

abbrev pub read_plain : List ℕ → ℕ → ℕ → ℕ
read_plain b off len = le_value (drop (off / 8) b) % 2 ^ len

pub read_plain_at :
    (b : List ℕ) (k len : ℕ) → read_plain b (k * 8) len ≡ le_value (drop k b) % 2 ^ len
read_plain_at b k len =
    let whole : k * 8 / 8 ≡ k = omega arith in ap (λ j. le_value (drop j b) % 2 ^ len) whole

abbrev pub plain : Dsdl
plain = record {
  get_u8 = read_plain;
  get_u16 = read_plain;
  get_u32 = read_plain;
  get_u64 = read_plain;
  get_u8_lem = λ b k len _. read_plain_at b k len;
  get_u16_lem = λ b k len _. read_plain_at b k len;
  get_u32_lem = λ b k len _. read_plain_at b k len;
  get_u64_lem = λ b k len _. read_plain_at b k len;
}

-- Each transfer is one frame.
abbrev pub frames : Canard (List Frame)
frames = record {
  tx_push = λ q t. q ++ (record { can_id = t.port_id; bytes = t.payload } ∷ []);
  tx_peek = first;
  tx_pop = drop 1;
  rx_accept = λ q f. (q, none);
}

pub frames-IsQueue : IsQueue frames (λ q. q)
frames-IsQueue = record { peek = λ i. refl; pop = λ i. refl }

-- The functions that are called do nothing.
abbrev pub quiet : Call (List Frame)
quiet callback r uparam w = some w

abbrev pub socket_entry : FdEntry
socket_entry = record { addr = 100; fd = some 5; handler = can_socket_handler }

abbrev pub initialised : World (List Frame)
initialised = record {
  fds = socket_entry ∷ [];
  tasks = [];
  nodes = λ n. offline;
  timers = λ n. none;
  armed = λ fd. none;
  user_callback = none;
  timeout = 2000000;
  epollfd = some 4;
  can_sock = some 5;
  canard = [];
  bus = [];
  tfr_ids = record {
    node_info = λ n. 0;
    register_list = λ n. 0;
    register_access = λ n. 0;
    execute_command = λ n. 0;
  };
  sync_flag = false;
  sync_return = pos 0;
  memory = record {
    infos = λ p. zero_info;
    names = λ p. zeros 51;
    regs = λ p. zero_reg;
    halves = λ p. 0;
    words = λ p. 0;
    inputs = λ p. record { ma_5v = 0; mv_5v = 0; mv_24v1 = 0; mv_24v2 = 0; mv_24v = 0; ma_24v = 0 };
    reads = λ p. none;
    configures = λ p. none;
    intervals = λ p. none;
  };
}

-- The calls of the system during a request.
abbrev pub answers : RequestAnswers
answers = record {
  payload_memory = true;
  async = record {
    task_memory = some 200;
    timer = some 6;
    settime = true;
    entry_memory = some 101;
    errno = 0;
  };
  room = 8;
}
