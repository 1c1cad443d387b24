-- ===== src/Examples/Heartbeats.antt =====
-- Heartbeats: a node comes online, is lost, and node 127 is lost.
use libwlmio.Prelude.{ℕ, ◌≡◌, refl, List, [], ◌∷◌, none, some, arith}
use libwlmio.State.{
  World, Frame, Transfer, Status, message, heartbeat_timeout_handler, offline, update,
  can_socket_handler,
}
use libwlmio.Fds.{fd_entry_find, entry_at}
use libwlmio.Heartbeat.{StatusCall, TimerAnswers, notify, heartbeat_handler, heartbeat_timeout}
use libwlmio.Heartbeat.Tracking.{IsTracked, start-IsTracked}
use libwlmio.Heartbeat.Receive.{announced, heartbeat_handler-Received}
use libwlmio.Heartbeat.Taken.{TimerReady, Received}
use libwlmio.Heartbeat.Expire.{entry, expired, heartbeat_timeout-expired, heartbeat_timeout_127}
use libwlmio.Examples.Setup.{plain, initialised}

abbrev ignore : StatusCall (List Frame)
ignore f node old new w = some w

initialised-IsTracked : IsTracked initialised.nodes initialised.timers initialised.fds
initialised-IsTracked = record {
  online = λ n h. absurd (h refl);
  absent = λ n h. refl;
  listed = λ n fd e. absurd (cc e);
  apart = λ n m fd e f. absurd (cc e);
}

abbrev beat : Transfer
beat = record {
  transfer_kind = message;
  port_id = 7509;
  remote_node_id = 42;
  transfer_id = 3;
  payload = 10 ∷ 0 ∷ 0 ∷ 0 ∷ 0 ∷ 0 ∷ 7 ∷ [];
}

abbrev answers : TimerAnswers
answers = record { timer = some 9; entry_memory = some 300 }

answers-TimerReady : TimerReady answers initialised.fds
unfolding fd_entry_find entry_at
answers-TimerReady = record {
  fd = 9;
  address = 300;
  timer_given = refl;
  entry_given = refl;
  fd_new = refl;
  address_new = refl;
}

heartbeat_handler-Received_example :
    (w' : World (List Frame)) × (heartbeat_handler ignore plain answers beat initialised
      ≡ notify ignore initialised.user_callback beat.remote_node_id
          (initialised.nodes beat.remote_node_id)
          (announced beat.payload)
          w')
    × Received initialised beat.remote_node_id (announced beat.payload) w'
heartbeat_handler-Received_example =
    heartbeat_handler-Received ignore plain answers beat initialised (omega arith) (omega arith)
      initialised-IsTracked answers-TimerReady

abbrev running : Status
running = record { uptime = 10; health = 0; mode = 0; vendor_status = 7 }

module _ (n : ℕ) where
  abbrev online : World (List Frame)
  online = record initialised {
    nodes = update initialised.nodes n running;
    timers = update initialised.timers n (some 9);
    fds =
        record { addr = 100; fd = some 5; handler = can_socket_handler }
        ∷ record { addr = 300; fd = some 9; handler = heartbeat_timeout_handler }
        ∷ [];
  }

  online-IsTracked : IsTracked online.nodes online.timers online.fds
  unfolding fd_entry_find entry_at
  online-IsTracked =
      start-IsTracked initialised.nodes initialised.timers initialised.fds initialised-IsTracked n
        running (omega arith) 9 300 refl refl

heartbeat_timeout-expired_example :
    (heartbeat_timeout ignore
        (entry ignore (online 42) (online-IsTracked 42) 42 9 refl).addr
        (online 42)
      ≡ notify ignore
          (online 42).user_callback
          42
          ((online 42).nodes 42)
          offline
          (expired ignore (online 42) (online-IsTracked 42) 42 9 refl))
    × IsTracked
        (expired ignore (online 42) (online-IsTracked 42) 42 9 refl).nodes
        (expired ignore (online 42) (online-IsTracked 42) 42 9 refl).timers
        (expired ignore (online 42) (online-IsTracked 42) 42 9 refl).fds
heartbeat_timeout-expired_example =
    heartbeat_timeout-expired ignore (online 42) (online-IsTracked 42) 42 9 refl (omega arith)

heartbeat_timeout_127_example :
    heartbeat_timeout ignore
      (entry ignore (online 127) (online-IsTracked 127) 127 9 refl).addr
      (online 127)
    ≡ none
heartbeat_timeout_127_example =
    heartbeat_timeout_127 ignore (online 127) (online-IsTracked 127) 127 9 refl refl
