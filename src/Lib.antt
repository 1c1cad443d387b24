-- ===== src/Lib.antt =====
-- libwlmio: the C library through which an application reaches I/O modules on a CAN bus. A request
-- becomes a service transfer and a task that waits for the reply; a reply is parsed, handed to the
-- caller's memory and ends the task by a call of the caller's function, as does the task's timer.
-- Heartbeats keep a table of the nodes, each with a timer.
--
-- Files, and what they are about in src/libwlmio/wlmio.c and src/libwlmio/wlmio.h:
--   Prelude     shared names, the arithmetic of lists and of error codes
--   Wire        little-endian bytes, memcpy into objects of a fixed size, canardDSDLGetU8 and its
--               siblings
--   Register    struct wlmio_register_access, the tables of widths, validate_register_access; the
--               layout of uavcan.register.Value without these tables (Layout); the payload that
--               wlmio_register_access builds (Request) and what register_access_response_handler
--               reads (Response)
--   NodeInfo    struct wlmio_node_info and the parser of get_node_info_response_handler
--   State       the file-scope variables, the structs in them, and the memory of the callers
--   Fds         fd_entry_find, fd_entry_close, fd_entry_add on the list of the entries, and in
--               Pointers on the pointers of struct fd_entry
--   Async       async_add, async_remove_entry, async_complete, async_get_param, and async_handler
--               under the name async_timeout
--   Transport   uavcan_send, make_rsp_specifier
--   Requests    wlmio_get_node_info, wlmio_register_list, wlmio_register_access,
--               wlmio_execute_command
--   Responses   the four handlers of replies
--   Heartbeat   heartbeat_handler, and heartbeat_timeout_handler under the name heartbeat_timeout
--   Events      can_socket_handler, the loop of wlmio_tick, wlmio_set_timeout,
--               wlmio_set_status_callback
--   Init        get_node_id, can_socket_init, wlmio_init, wlmio_shutdown, wlmio_get_epoll_fd,
--               wlmio_get_node_id
--   Io          src/libwlmio/io.c: the reads of the I/O modules (Read), the writes of one value
--               (Write), the settings of several requests (Settings), and which of the callbacks a
--               call runs (Dispatch)
--   Sync        src/libwlmio/sync.c: the wait (Waiting, Timeout, Access, Steady) and the functions
--               for the requests and, in Modules, for the I/O modules
--   Tools       src/tools/fwupdate.c (FwUpdate), src/tools/monitor.c (Monitor) and the arguments, the
--               output and the loop of src/tools/regtool.c (RegTool)
--   System      the library as one state machine: the invariant of its variables, the steps that a
--               program takes (Reach), and what holds from wlmio_init on (Started)
--   Examples    runs of the definitions, and the theorems at concrete inputs
--
-- How the code becomes definitions. The variables of the library are one record, World, which
-- every function takes and returns. `none` as the whole result is a fault: a failed assertion, an
-- access out of bounds, a null pointer or a variable that was never set. A pointer of the caller is
-- an address of the record Memory, or none for NULL; a function pointer of the caller is a
-- Callback, and what its call does to the state is the parameter Call (StatusCall for the function
-- for changes of status). The linked lists are lists of entries that carry their addresses.
--
-- Parameters. libcanard is the record Canard for its transport, the record CanardSetup for what
-- wlmio_init does with it, and the record Dsdl for its readers, whose laws are those that
-- canard_dsdl.h documents for offsets of whole bytes. What the calls of the system give (malloc,
-- timerfd_create, timerfd_settime, the room on the socket) is an argument: Answers,
-- RequestAnswers, TimerAnswers, InitAnswers, and IoAnswers, which also has what uninitialised
-- memory holds where the code reads it. What strtol makes of an argument is the record Number.
--
-- Bounds. uavcan_send runs on the number of frames that the socket takes, which is where the
-- code's loop ends; that of fwupdate on a list that says of each frame whether the socket takes it,
-- with none where frames are left. The two walks along the pointers of struct fd_entry have a round
-- for each entry and one more, the round that finds NULL. The loop of wlmio_tick runs on the list
-- of the events that epoll_wait gives before it gives none, and the wait of a synchronous call on
-- the list of the rounds of its loop, with none for its result where it still waits after them. The
-- search for the node of a timer runs 127 rounds, and the loop of wlmio_init over the nodes 128, as
-- in the code; that of dump_registers a round for each register and one more; the requests of
-- a node that downloads the firmware, one for each 256 bytes and one more. Unsigned fields are
-- numbers whose width is a hypothesis where a theorem needs it (IsReg, IsService).
--
-- Not modelled: wlmio_wait_for_event, which only waits; async_tick and receive_transfer, which have
-- no caller; read_register and write_register of regtool, and the other tools, which are prompts and
-- sequences of synchronous calls; the Python bindings; and libcanard, which is a third party's.
pub mod Prelude
pub mod Wire
pub mod Register
pub mod NodeInfo
pub mod State
pub mod Fds
pub mod Async
pub mod Transport
pub mod Requests
pub mod Responses
pub mod Heartbeat
pub mod Io
pub mod Events
pub mod Init
pub mod Sync
pub mod System
pub mod Tools
pub mod Examples
