-- ===== src/Tests/Logs.antt =====
-- The examples of the theorems on the log and on the start of the server.
use reactos_luagent.Base.{
  ◌+◌, ◌<◌, ◌≡◌, refl, true, false, List, [], ◌∷◌, codes, length, none, some, pos, if◌then◌else◌,
  arith,
}
use reactos_luagent.Protocol.{protocol_type_name}
use reactos_luagent.Frame.{ping}
use reactos_luagent.Diag.Levels.{level_info, level_debug, level_trace, wire_mode_off, wire_mode_hex}
use reactos_luagent.Diag.Log.{
  Files, LogState, Entry, rotate_bytes, content_of, write_line, diag_wire, hex_loop,
}
use reactos_luagent.Diag.Log.Rotated.{RenamesAll}
use reactos_luagent.Diag.Log.Kept.{OpensAll, Logs}
use reactos_luagent.Diag.Log.Sequence.{shown, log_all, log_all_keeps}
use reactos_luagent.Diag.Log.Stuck.{Refuses, IsFull, write_line_stuck}
use reactos_luagent.Diag.Log.Hex.{summary_entry, dump_entry, diag_wire_dumps}
use reactos_luagent.Main.{Libs, Server, server_run}
use reactos_luagent.Main.Released.{
  is_close, is_init, is_shutdown, count_calls, lua_made, engine_ready, server_run_releases,
}

abbrev calm_files : Files
calm_files = record { open_ok = λ d n. true; rename_ok = λ d s t. true }

calm_files-RenamesAll : RenamesAll calm_files
calm_files-RenamesAll = record { renames = λ d s t. refl }

calm_files-OpensAll : OpensAll calm_files
calm_files-OpensAll = record { opens = λ d n. refl }

-- A log with an empty disk.
abbrev new_log : LogState
new_log = record {
  initialized = true;
  level = level_info;
  wire_mode = wire_mode_off;
  file_open = false;
  path = codes "a.log";
  disk = λ n. none;
  stderr_text = [];
}

abbrev started_entry : Entry
started_entry = record {
  level = level_info;
  subsystem = some (codes "net");
  session = some 1;
  req_id = 0;
  message = codes "accepted";
  now_ms = 7;
  pid = pos 4;
}

abbrev two_entries : List Entry
two_entries = started_entry ∷ record started_entry { level = level_debug } ∷ []

log_all_keeps_example :
    Logs (shown level_info two_entries) new_log (log_all calm_files two_entries new_log)
    × (length (content_of ((log_all calm_files two_entries new_log).disk (codes "a.log")))
        < rotate_bytes)
log_all_keeps_example =
    log_all_keeps calm_files-RenamesAll calm_files-OpensAll two_entries new_log refl refl
      (omega arith) (omega arith)

-- A system that replaces no file, and a log whose rotated files exist.
abbrev strict_files : Files
strict_files = record {
  open_ok = λ d n. true;
  rename_ok = λ d s t. elim (d t) [ none ↦ true | some c ↦ false ];
}

strict_files-Refuses : Refuses strict_files
strict_files-Refuses = record { refuses = λ d s t c e. rw e refl }

strict_files-OpensAll : OpensAll strict_files
strict_files-OpensAll = record { opens = λ d n. refl }

abbrev stuck_log : LogState
stuck_log = record new_log { disk = λ n. some (codes "old\n") }

stuck_log-IsFull : IsFull (codes "a.log") stuck_log.disk
stuck_log-IsFull = record {
  first = codes "old\n";
  first_exists = refl;
  second = codes "old\n";
  second_exists = refl;
  third = codes "old\n";
  third_exists = refl;
}

write_line_stuck_example :
    content_of ((write_line strict_files (codes "new\n") stuck_log).disk (codes "a.log"))
    ≡ codes "old\nnew\n"
write_line_stuck_example =
    write_line_stuck strict_files-Refuses (codes "new\n") stuck_log strict_files-OpensAll refl
      (omega arith) (omega arith) stuck_log-IsFull

abbrev hex_log : LogState
hex_log = record new_log { wire_mode = wire_mode_hex; level = level_trace }

diag_wire_dumps_example :
    (diag_wire calm_files (codes "RX") started_entry (some ping) 0 (some (codes "RXSH")) hex_log
      ≡ log_all calm_files
          (summary_entry (codes "RX") started_entry (codes (protocol_type_name (some ping))) 0
            ∷ dump_entry (codes "RX") started_entry (codes "RXSH")
            ∷ [])
          hex_log)
    × (length (hex_loop 0 (codes "RXSH")) < 1024)
diag_wire_dumps_example =
    diag_wire_dumps calm_files (codes "RX") started_entry (some ping) 0 (codes "RXSH") hex_log refl
      refl

-- Libraries whose calls succeed, and the server before its start.
abbrev calm_libs : Libs
calm_libs = record {
  lua_new_ok = λ t. true;
  bootstrap_ok = λ t. true;
  tcp_init_result = λ t. pos 0;
  ip4_addr_result = λ t. pos 0;
  bind_result = λ t. pos 0;
  listen_result = λ t. pos 0;
  run_result = λ t. pos 0;
}

abbrev no_server : Server
no_server = record { has_lua = false; trace = [] }

server_run_releases_example :
    let s' = (server_run calm_libs (codes "0.0.0.0") (pos 7000) no_server).1 in
    (s'.has_lua ≡ false)
    × (count_calls is_close s'.trace
        ≡ count_calls is_close [] + (if lua_made calm_libs no_server then 1 else 0))
    × (count_calls is_init s'.trace ≡ count_calls is_init [] + 1)
    × (count_calls is_shutdown s'.trace
        ≡ count_calls is_shutdown [] + (if engine_ready calm_libs no_server then 1 else 0))
server_run_releases_example = server_run_releases calm_libs (codes "0.0.0.0") (pos 7000) no_server
