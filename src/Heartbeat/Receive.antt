-- ===== src/Heartbeat/Receive.antt =====
-- The nodes and their timers after `heartbeat_handler`.
use libwlmio.Prelude.{ℕ, ◌%◌, ◌^◌, List, subst, drop, ◌≤◌, ◌≡◌, ◌≢◌, arith, le→leb, length, ne→==}
use libwlmio.Wire.{Dsdl, le_value}
use libwlmio.State.{World, Transfer, Status}
use libwlmio.Heartbeat.{StatusCall, TimerAnswers, read_status, notify, heartbeat_handler}
use libwlmio.Heartbeat.Tracking.{IsTracked}
use libwlmio.Heartbeat.Taken.{TimerReady, Received, TimerChange, track-Result}

-- What a heartbeat announces: 32 bits of uptime, then from a byte each 2 bits of health, 3 of mode,
-- and the status of the vendor. Bytes that are not there count as zero.
abbrev pub announced : List ℕ → Status
announced payload = record {
  uptime = le_value payload % 2 ^ 32;
  health = le_value (drop 4 payload) % 2 ^ 2;
  mode = le_value (drop 5 payload) % 2 ^ 3;
  vendor_status = le_value (drop 6 payload) % 2 ^ 8;
}

read_status-announced : (d : Dsdl) (payload : List ℕ) → read_status d payload ≡ announced payload
unfolding read_status
read_status-announced d payload = rw (
  d.get_u32_lem payload 0 32 (omega arith),
  d.get_u8_lem payload 4 2 (omega arith),
  d.get_u8_lem payload 5 3 (omega arith),
  d.get_u8_lem payload 6 8 (omega arith),
)

module _ {Ins : Type 0} (status_call : StatusCall Ins) (d : Dsdl) (os : TimerAnswers)
    (tfr : Transfer) (w : World Ins) where
  -- What the handler did before it calls the function for changes of status.
  pub heartbeat_handler-Change :
      length tfr.payload ≢ 0
      → tfr.remote_node_id ≤ 127
      → IsTracked w.nodes w.timers w.fds
      → TimerReady os w.fds
      → (w' : World Ins) × (heartbeat_handler status_call d os tfr w
          ≡ notify status_call w.user_callback tfr.remote_node_id
              (w.nodes tfr.remote_node_id)
              (read_status d tfr.payload)
              w')
        × Received w tfr.remote_node_id (read_status d tfr.payload) w'
        × TimerChange w.timers w.fds tfr.remote_node_id w'.timers w'.fds
        × (w'.epollfd ≡ w.epollfd)
  unfolding heartbeat_handler
  heartbeat_handler-Change some_payload fits h ready =
      let tracked =
        track-Result status_call os tfr.remote_node_id (read_status d tfr.payload) w h ready in
      (
        tracked.world,
        rw (
          ne→== (length tfr.payload) 0 some_payload,
          ne→== tfr.remote_node_id 255 (λ p. omega arith),
          le→leb tfr.remote_node_id 127 fits,
          tracked.result,
          tracked.received.callback_after,
        ),
        tracked.received,
        tracked.change,
        tracked.epoll_after,
      )

  -- A heartbeat that is not empty, of a node 0 to 127, never faults where the timers are in step
  -- with the nodes and a new timer and its entry are given: the status that its bytes announce is
  -- recorded for that node alone, the timers are in step again, the node has one exactly if it is
  -- not offline and then set to 3 seconds, no task is touched, and the function for changes of
  -- status is called at the end with the old and the new status.
  pub heartbeat_handler-Received :
      length tfr.payload ≢ 0
      → tfr.remote_node_id ≤ 127
      → IsTracked w.nodes w.timers w.fds
      → TimerReady os w.fds
      → (w' : World Ins) × (heartbeat_handler status_call d os tfr w
          ≡ notify status_call w.user_callback tfr.remote_node_id
              (w.nodes tfr.remote_node_id)
              (announced tfr.payload)
              w')
        × Received w tfr.remote_node_id (announced tfr.payload) w'
  heartbeat_handler-Received some_payload fits h ready =
      let (w', handled, received, _, _) = heartbeat_handler-Change some_payload fits h ready in
      let same = read_status-announced d tfr.payload in
      (
        w',
        rw (same) at handled,
        subst (λ status. Received w tfr.remote_node_id status w') same received,
      )
