-- ===== src/Examples/Programs.antt =====
-- A program from its start: the library is initialised, the timeout set, and a node comes online.
use libwlmio.Prelude.{
  false, ◌≡◌, refl, ap, List, [], ◌∷◌, Option, none, some, pos, true, arith, ltb, ltb-false,
  if◌then◌else◌, subst, ℕ,
}
use libwlmio.State.{application, World, Canard, Frame, Transfer, Callback, offline, message}
use libwlmio.Fds.{entry_at, fd_entry_find}
use libwlmio.Heartbeat.{StatusCall}
use libwlmio.Events.{Event, wlmio_tick, wlmio_set_timeout}
use libwlmio.Init.{CanardSetup, InitAnswers, get_node_id, wlmio_init}
use libwlmio.Init.Pins.{digits, get_node_id-digits}
use libwlmio.Init.Starts.{AtStart, Opens, can_entry, wlmio_init-IsLive}
use libwlmio.System.{IsLive}
use libwlmio.System.Tasks.{Behaves, Notices}
use libwlmio.Requests.{RequestAnswers, tfr_tx, begin}
use libwlmio.Async.{task_at}
use libwlmio.System.{Extends}
use libwlmio.System.Requests.{same-Extends, IsFresh, begin-Extends}
use libwlmio.System.Events.{IsDue, IsFit}
use libwlmio.System.Reach.{here, further, sets_timeout}
use libwlmio.System.Started.{wlmio_tick-returns}
use libwlmio.Examples.Setup.{plain, frames, quiet, initialised}

-- Node 42, on the pins.
abbrev answers : InitAnswers
answers = record {
  gpiod = pos 0;
  values = digits 42;
  epoll = some 4;
  socket = some 5;
  ioctl = true;
  bind = true;
  setsockopt = true;
  entry_memory = some 100;
}

get_node_id-digits_example : get_node_id answers ≡ pos 42
get_node_id-digits_example = get_node_id-digits answers 42 (omega arith) refl (λ i. refl)

abbrev setup : CanardSetup (List Frame)
setup = record {
  init = [];
  set_mtu_bytes = λ n i. i;
  set_node_id = λ n i. i;
  node_id = λ i. 42;
  rx_subscribe = λ kind port extent i. i;
}

-- The tables hold zeros.
abbrev start : World (List Frame)
start = record initialised {
  fds = [];
  epollfd = none;
  can_sock = none;
  nodes = λ n.
      if ltb n 128 then record { uptime = 0; health = 0; mode = 0; vendor_status = 0 } else offline;
  timers = λ n. if ltb n 128 then some 0 else none;
}

start-AtStart : AtStart start
start-AtStart = record {
  no_fds = refl;
  no_tasks = refl;
  past_tables = λ n p. (rw (ltb-false n 128 p), rw (ltb-false n 128 p));
}

abbrev answers_open : Opens answers
answers_open = record {
  node = 42;
  epoll = 4;
  can = 5;
  entry = 100;
  node_given = get_node_id-digits answers 42 (omega arith) refl (λ i. refl);
  epoll_given = refl;
  can_given = refl;
  set_up = refl;
  entry_given = refl;
}

abbrev Any : Callback → Type 0
Any callback = Unit

abbrev unmoved : StatusCall (List Frame)
unmoved f node old new w = some w

quiet-Behaves : Behaves Any quiet
quiet-Behaves callback r uparam w safe h = (w, refl, same-Extends Any w w refl refl h)

unmoved-Notices : Notices Any unmoved
unmoved-Notices f node old new w h = (w, refl, h)

abbrev Started : Type 0
Started =
    (w' : World (List Frame)) × (wlmio_init setup answers start ≡ some (pos 0, w'))
    × IsLive Any w'
    × (w'.fds ≡ can_entry Any setup answers start start-AtStart answers_open ∷ [])
    × (w'.tasks ≡ [])
    × (w'.canard ≡ [])
    × ((n : ℕ) → (w'.nodes n ≡ offline) × (w'.timers n ≡ none))

-- The library after `wlmio_init`.
started : Started
started = wlmio_init-IsLive Any setup answers start start-AtStart answers_open

wlmio_init-IsLive_example : Started
wlmio_init-IsLive_example = wlmio_init-IsLive Any setup answers start start-AtStart answers_open

abbrev beat : Transfer
beat = record {
  transfer_kind = message;
  port_id = 7509;
  remote_node_id = 17;
  transfer_id = 3;
  payload = 10 ∷ 0 ∷ 0 ∷ 0 ∷ 0 ∷ 0 ∷ 7 ∷ [];
}

-- Each frame is that heartbeat.
abbrev beats : Canard (List Frame)
beats = record frames { rx_accept = λ q f. (q, some beat) }

abbrev event : Event
event = record {
  entry = 100;
  frame = some (record { can_id = 0; bytes = [] });
  os = record { timer = some 9; entry_memory = some 300 };
}

beat-IsFit : IsFit beat
beat-IsFit = record {
  bytes = omega arith;
  heartbeat = λ p q r. omega arith;
  name_fits = λ p. absurd (omega arith);
  value_fits = λ p. absurd (omega arith);
}

module _ (s : Started) where
  event-IsDue : IsDue beats event (wlmio_set_timeout 500 s.0)
  unfolding wlmio_set_timeout entry_at fd_entry_find
  event-IsDue = record {
    entry = can_entry Any setup answers start start-AtStart answers_open;
    listed = ap (entry_at 100) s.3;
    ready = record {
      fd = 9;
      address = 300;
      timer_given = refl;
      entry_given = refl;
      fd_new = ap (fd_entry_find (some 9)) s.3;
      address_new = ap (entry_at 300) s.3;
    };
    transfers = λ frame i tfr read e.
        let same : beat ≡ tfr =
          ap (λ (x : List Frame × Option Transfer). elim x.1 [ none ↦ beat | some t ↦ t ]) e in
        subst IsFit same beat-IsFit;
  }

abbrev begun : World (List Frame)
begun = started.0

wlmio_tick-returns_example :
    (w' : World (List Frame)) × (wlmio_tick beats plain quiet unmoved 3
        (event ∷ [])
        (wlmio_set_timeout 500 begun)
      ≡ some (pos 0, w'))
    × IsLive Any w'
wlmio_tick-returns_example =
    wlmio_tick-returns beats plain quiet unmoved Any quiet-Behaves unmoved-Notices setup answers
      start begun (wlmio_set_timeout 500 begun) 3 (event ∷ []) start-AtStart answers_open started.1
      (further here (sets_timeout 500)) (event-IsDue started, λ w' e. tt)

-- The timer of the request cannot be set.
abbrev unset : RequestAnswers
unset = record {
  payload_memory = true;
  async = record {
    task_memory = some 200;
    timer = some 6;
    settime = false;
    entry_memory = some 101;
    errno = 22;
  };
  room = 8;
}

module _ (s : Started) where
  unset-IsFresh : IsFresh unset.async s.0
  unfolding entry_at task_at
  unset-IsFresh = record {
    task_new = λ a e. ap (task_at a) s.4;
    entry = 101;
    entry_given = refl;
    entry_new = ap (entry_at 101) s.3;
  }

begin-Extends_example :
    (w' : World (List Frame)) × (begin beats unset
        (tfr_tx 430 17 0 [])
        initialised.tfr_ids
        (some 70)
        (some (application 1))
        none
        begun
      ≡ some (pos 0, w'))
    × Extends Any begun w'
begin-Extends_example =
    begin-Extends Any beats unset (tfr_tx 430 17 0 []) initialised.tfr_ids (some 70) none begun
      started.2 (application 1) tt (unset-IsFresh started) (λ missing. cc missing)
