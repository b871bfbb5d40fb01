-- ===== src/Machine.antt =====
-- One client session of the server: the structs of src/session.h, src/transfer.h, src/proc.h and
-- src/diag.h, the operating system as a parameter, and actions on the state.
--
-- The operating system answers each call by any function of the calls made before it. The calls
-- that were made, newest first, are the trace; it is how the effects of a handler are stated.
pub mod Keeps
pub mod Leads
use reactos_luagent.Base.{
  ℕ, ◌+◌, ◌/◌, if◌then◌else◌, ◌%◌, ◌^◌, Bool, true, false, List, [], ◌∷◌, Bytes, Option, none, some,
  ℤ, pos, negsuc,
}
use reactos_luagent.Libc.{u64_mod}

-- The handles of a session that libuv closes asynchronously.
pub data Handle : Type 0 where
  tcp_handle timer_handle process_handle stdout_handle stderr_handle : Handle

pub data OpenFlags : Type 0 where
  creat_trunc_wronly rdonly : OpenFlags

-- What the server allocates: a copy or buffer of so many bytes, an array of so many pointers, or a
-- struct.
pub data Block : Type 0 where
  bytes_block pointers_block : ℕ → Block
  write_req_block read_ctx_block : Block

-- The calls of libc and libuv that allocate, read the clock, or act on files, handles and
-- processes.
pub data Event : Type 0 where
  alloc : Block → Event
  hrtime : Event
  fs_open : Bytes → OpenFlags → Event
  fs_fstat : ℤ → Event
  fs_read : ℤ → ℕ → ℕ → Event
  fs_write : ℤ → Bytes → ℕ → Event
  fs_close : ℤ → Event
  fs_unlink : Bytes → Event
  fs_rename : Bytes → Bytes → Event
  tcp_write : Bytes → Event
  tcp_init tcp_accept : Event
  timer_init timer_start timer_stop : Event
  close : Handle → Event
  pipe_init : Handle → Event
  read_start read_stop : Handle → Event
  spawn : Bytes → List Bytes → Event
  process_kill : Event

abbrev pub Trace : Type 0
Trace = List Event

-- What libuv and libc answer, given the earlier calls. A read answers `none` for a negative
-- result, and else the bytes that it put into the buffer.
pub record Os : Type 0 where
  pub alloc_ok : Trace → Block → Bool
  pub nanoseconds : Trace → ℕ
  pub open_result : Trace → Bytes → OpenFlags → ℤ
  pub fstat_result : Trace → ℤ → ℤ
  pub st_size : Trace → ℤ → ℕ
  pub read_result : Trace → ℤ → ℕ → ℕ → Option Bytes
  pub write_result : Trace → ℤ → Bytes → ℕ → ℤ
  pub close_result : Trace → ℤ → ℤ
  pub rename_result : Trace → Bytes → Bytes → ℤ
  pub tcp_write_result : Trace → Bytes → ℤ
  pub tcp_init_result : Trace → ℤ
  pub accept_result : Trace → ℤ
  pub read_start_result : Trace → ℤ
  pub timer_init_result : Trace → ℤ
  pub timer_start_result : Trace → ℤ
  pub pipe_init_result : Trace → Handle → ℤ
  pub spawn_result : Trace → Bytes → List Bytes → ℤ
  pub kill_result : Trace → ℤ
  pub strerror : ℤ → Bytes
  pub ulong_max : ℕ

pub data TransferMode : Type 0 where
  mode_none mode_upload mode_download : TransferMode

-- `struct transfer_state`
pub record Transfer : Type 0 where
  pub active : Bool
  pub overwrite : Bool
  pub mode : TransferMode
  pub req_id : ℕ
  pub file : ℤ
  pub total_size : ℕ
  pub offset : ℕ
  pub last_progress_ms : ℕ
  pub chunk_size : ℕ
  pub path : Option Bytes
  pub tmp_path : Option Bytes

pub data KillReason : Type 0 where
  kill_none kill_requested kill_timeout kill_idle : KillReason

-- `struct proc_state`. Its handles and options are given to libuv as they are built.
pub record Proc : Type 0 where
  pub active : Bool
  pub stdout_closed : Bool
  pub stderr_closed : Bool
  pub proc_id : ℕ
  pub started_ms : ℕ
  pub last_io_ms : ℕ
  pub timeout_ms : ℕ
  pub idle_timeout_ms : ℕ
  pub kill_reason : KillReason
  pub file : Option Bytes
  pub args : Option (List Bytes)

-- The counters that `struct session` and `struct diag_counters` both have.
pub record Counters : Type 0 where
  pub frames_rx : ℕ
  pub frames_tx : ℕ
  pub bytes_rx : ℕ
  pub bytes_tx : ℕ
  pub protocol_errors : ℕ
  pub lua_op_failures : ℕ
  pub transfer_starts : ℕ
  pub transfer_completes : ℕ
  pub transfer_aborts : ℕ
  pub process_spawns : ℕ
  pub process_exits : ℕ
  pub process_timeouts : ℕ
  pub session_disconnects : ℕ
  pub heartbeat_events : ℕ
  pub relay_opens : ℕ
  pub relay_closes : ℕ

-- `struct session`. `rx_buf` holds the first `rx_used` bytes of the receive buffer.
pub record Session : Type 0 where
  pub upload : Transfer
  pub download : Transfer
  pub proc : Proc
  pub rx_buf : Bytes
  pub rx_cap : ℕ
  pub pending_write_bytes : ℕ
  pub last_rx_ms : ℕ
  pub last_tx_ms : ℕ
  pub session_id : ℕ
  pub counters : Counters
  pub next_req_id : ℕ
  pub next_proc_id : ℕ
  pub close_refs : ℕ
  pub timer_started : Bool
  pub closed : Bool

-- `in_flight` are the `buf.len` of the write requests that libuv holds for this session.
pub record State : Type 0 where
  pub session : Session
  pub global : Counters
  pub parse_failures : ℕ
  pub in_flight : List ℕ
  pub trace : Trace

abbrev pub Action : Type 0 → Type 0
Action A = State → A × State

-- An `int` result: 0, or -1.
pub data Rc : Type 0 where
  success failure : Rc

unfoldable pub pure : {A : Type 0} → A → Action A
pure a s = (a, s)

unfoldable pub get_session : Action Session
get_session s = (s.session, s)

unfoldable pub modify : (Session → Session) → Action Unit
modify f s = (tt, record s { session = f s.session })

-- A call of the operating system: its answer, and the longer trace.
unfoldable pub call : {A : Type 0} → Event → (Trace → A) → Action A
call e answer s = (answer s.trace, record s { trace = e ∷ s.trace })

unfoldable pub call_ : Event → Action Unit
call_ e s = (tt, record s { trace = e ∷ s.trace })

-- Opening this opens the actions above too.
infixl 5 ◌>>=◌ ◌>>◌
unfoldable pub ◌>>=◌ : {A B : Type 0} → Action A → (A → Action B) → Action B
unfolding pure get_session modify call call_
◌>>=◌ m f s = let (a, s') = m s in f a s'

abbrev pub ◌>>◌ : {A B : Type 0} → Action A → Action B → Action B
m >> k = m >>= λ _. k

-- `if (c) { m; }`
abbrev pub when : Bool → Action Unit → Action Unit
when c m = if c then m else pure tt

-- A result that may be missing, and an `int` result: what is done without it, and with it.
abbrev pub on_some : {A B : Type 0} → Option A → Action B → (A → Action B) → Action B
on_some none m f = m
on_some (some a) m f = f a

abbrev pub on_success : {B : Type 0} → Rc → Action B → Action B → Action B
on_success failure m n = m
on_success success m n = n

-- `x++` on the unsigned fields.
abbrev pub inc_u64 : ℕ → ℕ
inc_u64 n = (n + 1) % u64_mod

abbrev pub inc_u32 : ℕ → ℕ
inc_u32 n = (n + 1) % 2 ^ 32

module _ (os : Os) where
  -- `malloc`, `calloc` and `strdup`: whether the result is not NULL.
  abbrev pub allocate : Block → Action Bool
  allocate b = call (alloc b) (λ t. os.alloc_ok t b)

  -- util.c
  unfoldable pub util_now_ms : Action ℕ
  util_now_ms = call hrtime (λ t. os.nanoseconds t / 1000000)
