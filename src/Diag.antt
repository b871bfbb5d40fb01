-- ===== src/Diag.antt =====
-- The counters of src/diag.c. Logging itself writes to stderr and the log file only.
pub mod Tables
pub mod Levels
pub mod Numbered
pub mod Log
use reactos_luagent.Base.{ℕ}
use reactos_luagent.Libc.{add_u64}
use reactos_luagent.Machine.{Counters, Action, inc_u64}

-- The functions that DIAG_COUNTER_FN makes, by the field that they count.
pub data Counter : Type 0 where
  protocol_error lua_error transfer_start transfer_complete transfer_abort : Counter
  process_spawn process_exit process_timeout session_disconnect heartbeat : Counter
  relay_open relay_close : Counter

unfoldable pub bump : Counter → Counters → Counters
bump protocol_error c = record c { protocol_errors = inc_u64 c.protocol_errors }
bump lua_error c = record c { lua_op_failures = inc_u64 c.lua_op_failures }
bump transfer_start c = record c { transfer_starts = inc_u64 c.transfer_starts }
bump transfer_complete c = record c { transfer_completes = inc_u64 c.transfer_completes }
bump transfer_abort c = record c { transfer_aborts = inc_u64 c.transfer_aborts }
bump process_spawn c = record c { process_spawns = inc_u64 c.process_spawns }
bump process_exit c = record c { process_exits = inc_u64 c.process_exits }
bump process_timeout c = record c { process_timeouts = inc_u64 c.process_timeouts }
bump session_disconnect c = record c { session_disconnects = inc_u64 c.session_disconnects }
bump heartbeat c = record c { heartbeat_events = inc_u64 c.heartbeat_events }
bump relay_open c = record c { relay_opens = inc_u64 c.relay_opens }
bump relay_close c = record c { relay_closes = inc_u64 c.relay_closes }

-- The global counters and the session's.
unfoldable pub count_with : (Counters → Counters) → Action Unit
count_with f s = (
  tt,
  record s { global = f s.global; session = record s.session { counters = f s.session.counters } },
)

abbrev pub diag_count : Counter → Action Unit
diag_count c = count_with (bump c)

unfoldable pub frame_rx : ℕ → Counters → Counters
frame_rx n c = record c { frames_rx = inc_u64 c.frames_rx; bytes_rx = add_u64 c.bytes_rx n }

unfoldable pub frame_tx : ℕ → Counters → Counters
frame_tx n c = record c { frames_tx = inc_u64 c.frames_tx; bytes_tx = add_u64 c.bytes_tx n }

abbrev pub diag_count_frame_rx : ℕ → Action Unit
diag_count_frame_rx frame_len = count_with (frame_rx frame_len)

abbrev pub diag_count_frame_tx : ℕ → Action Unit
diag_count_frame_tx frame_len = count_with (frame_tx frame_len)

unfoldable pub diag_count_parse_failure : Action Unit
diag_count_parse_failure s = (tt, record s { parse_failures = inc_u64 s.parse_failures })
