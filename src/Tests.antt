-- ===== src/Tests.antt =====
-- A session, an operating system and a Lua state for the examples.
pub mod Wire
pub mod Life
pub mod Files
pub mod Logs
pub mod Serial
pub mod Relays
pub mod Scripts
use reactos_luagent.Base.{
  ℕ, ◌+◌, ◌^◌, ltb, if◌then◌else◌, length, Bool, true, false, List, [], ◌∷◌, Bytes, codes, take,
  Option, none, some, ℤ, pos, negsuc,
}
use reactos_luagent.Machine.{
  Os, Transfer, mode_download, mode_upload, Proc, Counters, Session, State, Trace, pure,
}
use reactos_luagent.Session.Start.{zero_counters}
use reactos_luagent.Transfer.{reset_transfer}
use reactos_luagent.Proc.{reset_proc}
use reactos_luagent.Protocol.{Lua}

abbrev pub zeros : ℕ → Bytes
zeros n = take n (codes "................")

-- Every call succeeds, up to the largest offset of a file; a read gives up to 16 bytes, and a write
-- takes all.
abbrev pub calm_os : Os
calm_os = record {
  alloc_ok = λ t b. true;
  nanoseconds = λ t. 7000000;
  open_result = λ t p f. pos 5;
  fstat_result = λ t f. pos 0;
  st_size = λ t f. 6;
  read_result = λ t f n o. some (zeros n);
  write_result = λ t f b o. if ltb (o + length b) (2 ^ 63) then pos (length b) else negsuc 26;
  close_result = λ t f. pos 0;
  rename_result = λ t a b. pos 0;
  tcp_write_result = λ t b. pos 0;
  tcp_init_result = λ t. pos 0;
  accept_result = λ t. pos 0;
  read_start_result = λ t. pos 0;
  timer_init_result = λ t. pos 0;
  timer_start_result = λ t. pos 0;
  pipe_init_result = λ t h. pos 0;
  spawn_result = λ t p a. pos 0;
  kill_result = λ t. pos 0;
  strerror = λ rc. codes "error";
  ulong_max = 18446744073709551615;
}

abbrev pub idle_lua : Lua
idle_lua = record { dispatch_defined = λ s. true; pcall = λ req_id payload. pure true }

-- A session that was just accepted.
abbrev pub new_session : Session
new_session = record {
  upload = reset_transfer;
  download = reset_transfer;
  proc = reset_proc;
  rx_buf = [];
  rx_cap = 16384;
  pending_write_bytes = 0;
  last_rx_ms = 7;
  last_tx_ms = 7;
  session_id = 1;
  counters = zero_counters;
  next_req_id = 1;
  next_proc_id = 1;
  close_refs = 1;
  timer_started = true;
  closed = false;
}

abbrev pub new_state : State
new_state = record {
  session = new_session;
  global = zero_counters;
  parse_failures = 0;
  in_flight = [];
  trace = [];
}

-- A session that has begun an upload of three bytes, and one that has stored all of them.
abbrev pub uploading : State
uploading = record new_state {
  session = record new_session {
    upload = record reset_transfer {
      active = true;
      mode = mode_upload;
      req_id = 9;
      file = pos 5;
      total_size = 3;
      path = some (codes "a");
      tmp_path = some (codes "a.part");
    };
  };
}

abbrev pub uploaded : State
uploaded = record uploading {
  session = record new_session {
    upload = record reset_transfer {
      active = true;
      mode = mode_upload;
      req_id = 9;
      file = pos 5;
      total_size = 3;
      offset = 3;
      path = some (codes "a");
      tmp_path = some (codes "a.part");
    };
  };
}

-- A session in the loop of a download of six bytes, in chunks of four.
abbrev pub downloading : State
downloading = record new_state {
  session = record new_session {
    download = record reset_transfer {
      active = true;
      mode = mode_download;
      req_id = 9;
      file = pos 5;
      total_size = 6;
      chunk_size = 4;
      path = some (codes "a");
    };
  };
}

-- A session that has a silent process.
abbrev pub running : State
running = record new_state {
  session = record new_session {
    proc = record reset_proc {
      active = true;
      proc_id = 1;
      timeout_ms = 60000;
      idle_timeout_ms = 10000;
    };
  };
}
