-- ===== src/State.antt =====
-- The state behind the functions of src/libwlmio/wlmio.c: its file-scope variables, the statics of
-- its functions, and the memory that it reaches through the pointers of its callers.
use libwlmio.Prelude.{ℕ, ◌==◌, List, Option, if◌then◌else◌, ℤ, Bool}
use libwlmio.Register.{Reg}
use libwlmio.NodeInfo.{NodeInfo}

-- `a[i] = v`, for an array or a store that is a function of its index.
abbrev pub update {ℓ} : {A : Type ℓ} → (ℕ → A) → ℕ → A → ℕ → A
update a i v j = if j == i then v else a j

-- enum CanardTransferKind, as far as the library names it.
pub data TransferKind : Type 0 where
  message response request : TransferKind

-- CanardTransfer. The library sets `timestamp_usec` to 0 and `priority` to nominal in all that it
-- sends, and reads neither. The payload's size is the length of the list.
pub record Transfer : Type 0 where
  pub transfer_kind : TransferKind
  pub port_id : ℕ
  pub remote_node_id : ℕ
  pub transfer_id : ℕ
  pub payload : List ℕ

-- CanardFrame and struct canfd_frame, without what the library does not read.
pub record Frame : Type 0 where
  pub can_id : ℕ
  pub bytes : List ℕ

-- The calls of libcanard's transport (src/libcanard/canard.h) on its instance.
pub record Canard (Ins : Type 0) : Type 0 where
  pub tx_push : Ins → Transfer → Ins
  pub tx_peek : Ins → Option Frame
  pub tx_pop : Ins → Ins
  pub rx_accept : Ins → Frame → Ins × Option Transfer

-- struct wlmio_status
pub record Status : Type 0 where
  pub uptime : ℕ
  pub health : ℕ
  pub mode : ℕ
  pub vendor_status : ℕ

-- WLMIO_MODE_OFFLINE
abbrev pub mode_offline : ℕ
mode_offline = 7

-- What `nodes` holds of a node that is not there.
abbrev pub offline : Status
offline = record { uptime = 0; health = 0; mode = mode_offline; vendor_status = 0 }

-- The functions that `struct fd_entry` points to.
pub data Handler : Type 0 where
  can_socket_handler async_handler heartbeat_timeout_handler : Handler

-- struct fd_entry, with its address. A file descriptor is `none` where the call that should open it
-- gave -1.
pub record FdEntry : Type 0 where
  pub addr : ℕ
  pub fd : Option ℕ
  pub handler : Handler

-- The completion functions that the library itself hands over, and those of the application.
pub data Callback : Type 0 where
  application : ℕ → Callback
  sync_callback vpe6010_read_callback vpe6040_read_callback vpe6060_read_callback : Callback
  vpe6060_configure_callback vpe6080_read_callback vpe6080_configure_callback : Callback
  node_set_sample_interval_callback vpe6090_read_callback vpe6180_read_callback : Callback
  vpe6190_read_callback : Callback

-- struct task_entry, with its address. `timer` is the address of its `struct fd_entry`, and the
-- pointers `param` and `uparam` are `none` for NULL.
pub record Task : Type 0 where
  pub addr : ℕ
  pub id : ℕ
  pub timer : ℕ
  pub param : Option ℕ
  pub callback : Callback
  pub uparam : Option ℕ

-- The arrays `tfr_ids` of the four request functions.
pub record TransferIds : Type 0 where
  pub node_info : ℕ → ℕ
  pub register_list : ℕ → ℕ
  pub register_access : ℕ → ℕ
  pub execute_command : ℕ → ℕ

-- struct vpe6010_read and the other contexts of a read in src/libwlmio/io.c, without `reg`, which is
-- their first member: it is in `regs`, at the address of the context.
pub record ReadContext : Type 0 where
  pub input : Option ℕ
  pub callback : Option Callback
  pub uparam : Option ℕ

-- struct vpe6060_configure and struct vpe6080_configure
pub record ConfigureContext : Type 0 where
  pub counter : ℕ
  pub cancelled : ℕ
  pub r : ℤ
  pub callback : Option Callback
  pub uparam : Option ℕ

-- struct node_set_sample_interval, without `regr`, as above.
pub record IntervalContext : Type 0 where
  pub sample_interval : ℕ
  pub callback : Option Callback
  pub uparam : Option ℕ

-- struct wlmio_vpe6010_input
pub record Input6010 : Type 0 where
  pub ma_5v : ℕ
  pub mv_5v : ℕ
  pub mv_24v1 : ℕ
  pub mv_24v2 : ℕ
  pub mv_24v : ℕ
  pub ma_24v : ℕ

-- The objects of the callers, by address, and the contexts that src/libwlmio/io.c allocates, `none`
-- where there is none. An address is used at one type only.
pub record Memory : Type 0 where
  pub infos : ℕ → NodeInfo
  pub names : ℕ → List ℕ
  pub regs : ℕ → Reg
  -- Objects of type uint16_t and uint32_t.
  pub halves : ℕ → ℕ
  pub words : ℕ → ℕ
  pub inputs : ℕ → Input6010
  pub reads : ℕ → Option ReadContext
  pub configures : ℕ → Option ConfigureContext
  pub intervals : ℕ → Option IntervalContext

pub record World (Ins : Type 0) : Type 0 where
  pub fds : List FdEntry
  pub tasks : List Task
  pub nodes : ℕ → Status
  pub timers : ℕ → Option ℕ
  -- The seconds and nanoseconds to which `timerfd_settime` last set a timer.
  pub armed : ℕ → Option (ℕ × ℕ)
  pub user_callback : Option ℕ
  pub timeout : ℕ
  pub epollfd : Option ℕ
  pub can_sock : Option ℕ
  pub canard : Ins
  -- The frames that the socket took.
  pub bus : List Frame
  pub tfr_ids : TransferIds
  -- The variables of src/libwlmio/sync.c.
  pub sync_flag : Bool
  pub sync_return : ℤ
  pub memory : Memory
