-- ===== src/Init.antt =====
-- The start and the end of the library in src/libwlmio/wlmio.c: `get_node_id`, `can_socket_init`,
-- `wlmio_init`, `wlmio_shutdown`, `wlmio_get_epoll_fd` and `wlmio_get_node_id`.
pub mod Pins
pub mod Starts
use Prim.Native.Nat.{bit_or}
use libwlmio.Prelude.{
  ℕ, zero, suc, ◌+◌, ◌*◌, ◌%◌, ◌^◌, ◌&&◌, ◌>>◌, check, ℤ, pos, negsuc, is_neg, Option, none, some,
  Bool, true, false, ◌>>=◌, if◌then◌else◌,
}
use libwlmio.State.{
  World, TransferKind, message, response, Handler, can_socket_handler, offline, update,
}
use libwlmio.Fds.{close, fd_entry_add}
use libwlmio.Async.{is_open}

-- The calls of libcanard on its instance that `wlmio_init` makes, and the two fields that it sets.
pub record CanardSetup (Ins : Type 0) : Type 0 where
  pub init : Ins
  pub set_mtu_bytes : ℕ → Ins → Ins
  pub set_node_id : ℕ → Ins → Ins
  pub node_id : Ins → ℕ
  pub rx_subscribe : TransferKind → ℕ → ℕ → Ins → Ins

-- What the calls of the system give to `wlmio_init`: the result of gpiod and the seven values, the
-- two descriptors, whether the calls on the socket succeed, and the memory for its entry.
pub record InitAnswers : Type 0 where
  pub gpiod : ℤ
  pub values : ℕ → ℕ
  pub epoll : Option ℕ
  pub socket : Option ℕ
  pub ioctl : Bool
  pub bind : Bool
  pub setsockopt : Bool
  pub entry_memory : Option ℕ

-- node_id |= values[i] << i, in 8 bits.
abbrev pub or_pin : (ℕ → ℕ) → ℕ → ℕ → ℕ
or_pin values i node_id = bit_or node_id (values i * 2 ^ i) % 256

unfoldable pub get_node_id : InitAnswers → ℤ
get_node_id os =
    let v = os.values in
    if is_neg os.gpiod
    then os.gpiod
    else pos
        (or_pin v 6 (or_pin v 5 (or_pin v 4 (or_pin v 3 (or_pin v 2 (or_pin v 1 (or_pin v 0 0)))))))

-- CANARD_MTU_CAN_FD
abbrev pub mtu_can_fd : ℕ
mtu_can_fd = 64

-- The number of nodes, CANARD_NODE_ID_MAX + 1.
unfoldable pub node_count : ℕ
node_count = 128

-- The five subscriptions.
abbrev pub subscribed : {Ins : Type 0} → CanardSetup Ins → Ins → Ins
subscribed setup canard = setup.rx_subscribe message 7509 7 (
    setup.rx_subscribe response 430 313 (
      setup.rx_subscribe response 435 1
        (setup.rx_subscribe response 384 267 (setup.rx_subscribe response 385 51 canard))))

module _ {Ins : Type 0} where
  -- A socket that a later call fails on is not closed.
  unfoldable pub can_socket_init : InitAnswers → World Ins → Option (Option ℕ × World Ins)
  can_socket_init os w = elim os.socket [
    | none ↦ some (none, w)
    | some s ↦
        let added = fd_entry_add os.entry_memory (some s) can_socket_handler w >>= λ (entry, w).
        some (some s, w) in
        if os.ioctl && os.bind && os.setsockopt then added else some (none, w)
  ]

  -- The loop over the nodes, from `i` on.
  unfoldable pub reset_nodes : ℕ → ℕ → World Ins → World Ins
  reset_nodes zero i w = w
  reset_nodes (suc rounds) i w =
      reset_nodes rounds (i + 1)
        (record w { nodes = update w.nodes i offline; timers = update w.timers i none })

  start_node : CanardSetup Ins → InitAnswers → World Ins → Option (ℤ × World Ins)
  unfolding can_socket_init reset_nodes
  start_node setup os w = do
    (sock, w) ← can_socket_init os w
    let begun =
        reset_nodes node_count 0 (record w { can_sock = sock; canard = subscribed setup w.canard })
    some (if is_open sock then pos 0 else negsuc 0, begun)

  open_epoll : CanardSetup Ins → InitAnswers → World Ins → Option (ℤ × World Ins)
  unfolding start_node
  open_epoll setup os w =
      let opened : World Ins = record w { epollfd = os.epoll } in
      let begun = start_node setup os opened in
      if is_open os.epoll then begun else some (negsuc 0, opened)

  name_node : CanardSetup Ins → InitAnswers → ℤ → World Ins → Option (ℤ × World Ins)
  unfolding open_epoll
  name_node setup os (negsuc n) w = some (negsuc 0, w)
  name_node setup os (pos n) w =
      open_epoll setup os (record w { canard = setup.set_node_id n w.canard })

  unfoldable pub wlmio_init : CanardSetup Ins → InitAnswers → World Ins → Option (ℤ × World Ins)
  unfolding name_node
  wlmio_init setup os w =
      name_node setup os (get_node_id os)
        (record w { canard = setup.set_mtu_bytes mtu_can_fd setup.init })

  -- The lists and the tables are left as they are.
  unfoldable pub wlmio_shutdown : World Ins → ℤ × World Ins
  wlmio_shutdown w =
      (pos 0, record w { can_sock = none; epollfd = none; armed = close w.can_sock w.armed })

  unfoldable pub wlmio_get_epoll_fd : World Ins → ℤ
  wlmio_get_epoll_fd w = elim w.epollfd [ none ↦ negsuc 0 | some fd ↦ pos fd ]

  unfoldable pub wlmio_get_node_id : CanardSetup Ins → World Ins → Option ℕ
  wlmio_get_node_id setup w = check (is_open w.epollfd) >> some (setup.node_id w.canard)
