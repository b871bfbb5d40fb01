-- ===== src/Diag/Tables.antt =====
-- The tables for Lua of src/diag.c.
use reactos_luagent.Base.{
  ℕ, ◌-◌, ◌+◌, ◌^◌, ltb, if◌then◌else◌, Bool, true, false, List, [], ◌∷◌, ◌++◌, Bytes, String,
  codes, Option, none, some, ℤ, pos, negsuc,
}
use reactos_luagent.Libc.{u64_mod}
use reactos_luagent.Machine.{Session, State, Transfer}

pub data TableValue : Type 0 where
  integer : ℤ → TableValue
  text : Bytes → TableValue

-- The keys that were set, in order.
abbrev pub Table : Type 0
Table = List (Bytes × TableValue)

-- `(lua_Integer) value`
unfoldable pub lua_integer : ℕ → ℤ
lua_integer value = if ltb value (2 ^ 63) then pos value else negsuc (u64_mod - 1 - value)

unfoldable pub table_set_u64 : String → ℕ → Bytes × TableValue
table_set_u64 key value = (codes key, integer (lua_integer value))

unfoldable pub table_set_str : String → Option Bytes → Bytes × TableValue
table_set_str key none = (codes key, text [])
table_set_str key (some value) = (codes key, text value)

abbrev pub flag : Bool → ℕ
flag b = if b then 1 else 0

unfoldable pub diag_push_sessions : Session → Table
diag_push_sessions s =
    table_set_u64 "count" 1
    ∷ table_set_u64 "session.1.id" s.session_id
    ∷ table_set_u64 "session.1.last_rx_ms" s.last_rx_ms
    ∷ table_set_u64 "session.1.last_tx_ms" s.last_tx_ms
    ∷ table_set_u64 "session.1.pending_writes" s.pending_write_bytes
    ∷ table_set_u64 "session.1.frames_rx" s.counters.frames_rx
    ∷ table_set_u64 "session.1.frames_tx" s.counters.frames_tx
    ∷ table_set_u64 "session.1.closed" (flag s.closed)
    ∷ []

-- The rows of the two transfers: the number in the key of a download is 2 after an upload.
unfoldable pub upload_rows : Transfer → Table
upload_rows t =
    if t.active
    then table_set_u64 "xfer.1.req_id" t.req_id
      ∷ table_set_str "xfer.1.kind" (some (codes "upload"))
      ∷ table_set_str "xfer.1.path" t.path
      ∷ table_set_u64 "xfer.1.offset" t.offset
      ∷ table_set_u64 "xfer.1.total" t.total_size
      ∷ table_set_u64 "xfer.1.last_progress_ms" t.last_progress_ms
      ∷ []
    else []

unfoldable pub download_rows : Bool → Transfer → Table
download_rows alone t =
    if t.active
    then table_set_u64 (if alone then "xfer.1.req_id" else "xfer.2.req_id") t.req_id
      ∷ table_set_str (if alone then "xfer.1.kind" else "xfer.2.kind") (some (codes "download"))
      ∷ table_set_str (if alone then "xfer.1.path" else "xfer.2.path") t.path
      ∷ table_set_u64 (if alone then "xfer.1.offset" else "xfer.2.offset") t.offset
      ∷ table_set_u64 (if alone then "xfer.1.total" else "xfer.2.total") t.total_size
      ∷ table_set_u64 (if alone then "xfer.1.last_progress_ms" else "xfer.2.last_progress_ms")
          t.last_progress_ms
      ∷ []
    else []

unfoldable pub diag_push_transfers : Session → Table
diag_push_transfers s =
    upload_rows s.upload
    ++ (download_rows (if s.upload.active then false else true) s.download
        ++ (table_set_u64 "count" (flag s.upload.active + flag s.download.active) ∷ []))

unfoldable pub diag_push_procs : Session → Table
diag_push_procs s =
    table_set_u64 "count" (flag s.proc.active)
    ∷ (if s.proc.active
        then table_set_u64 "proc.1.id" s.proc.proc_id
          ∷ table_set_str "proc.1.path" s.proc.file
          ∷ table_set_u64 "proc.1.started_ms" s.proc.started_ms
          ∷ table_set_u64 "proc.1.last_io_ms" s.proc.last_io_ms
          ∷ table_set_u64 "proc.1.timeout_ms" s.proc.timeout_ms
          ∷ table_set_u64 "proc.1.idle_timeout_ms" s.proc.idle_timeout_ms
          ∷ []
        else [])

unfoldable pub diag_push_stats : State → Table
diag_push_stats s =
    let g = s.global in
    let c = s.session.counters in
    table_set_u64 "global.frames_rx" g.frames_rx
    ∷ table_set_u64 "global.frames_tx" g.frames_tx
    ∷ table_set_u64 "global.bytes_rx" g.bytes_rx
    ∷ table_set_u64 "global.bytes_tx" g.bytes_tx
    ∷ table_set_u64 "global.parse_failures" s.parse_failures
    ∷ table_set_u64 "global.protocol_errors" g.protocol_errors
    ∷ table_set_u64 "global.lua_op_failures" g.lua_op_failures
    ∷ table_set_u64 "global.transfer_starts" g.transfer_starts
    ∷ table_set_u64 "global.transfer_completes" g.transfer_completes
    ∷ table_set_u64 "global.transfer_aborts" g.transfer_aborts
    ∷ table_set_u64 "global.process_spawns" g.process_spawns
    ∷ table_set_u64 "global.process_exits" g.process_exits
    ∷ table_set_u64 "global.process_timeouts" g.process_timeouts
    ∷ table_set_u64 "global.session_disconnects" g.session_disconnects
    ∷ table_set_u64 "global.heartbeat_events" g.heartbeat_events
    ∷ table_set_u64 "global.relay_opens" g.relay_opens
    ∷ table_set_u64 "global.relay_closes" g.relay_closes
    ∷ table_set_u64 "session.id" s.session.session_id
    ∷ table_set_u64 "session.frames_rx" c.frames_rx
    ∷ table_set_u64 "session.frames_tx" c.frames_tx
    ∷ table_set_u64 "session.bytes_rx" c.bytes_rx
    ∷ table_set_u64 "session.bytes_tx" c.bytes_tx
    ∷ table_set_u64 "session.protocol_errors" c.protocol_errors
    ∷ table_set_u64 "session.lua_op_failures" c.lua_op_failures
    ∷ table_set_u64 "session.transfer_starts" c.transfer_starts
    ∷ table_set_u64 "session.transfer_completes" c.transfer_completes
    ∷ table_set_u64 "session.transfer_aborts" c.transfer_aborts
    ∷ table_set_u64 "session.process_spawns" c.process_spawns
    ∷ table_set_u64 "session.process_exits" c.process_exits
    ∷ table_set_u64 "session.process_timeouts" c.process_timeouts
    ∷ table_set_u64 "session.session_disconnects" c.session_disconnects
    ∷ table_set_u64 "session.heartbeat_events" c.heartbeat_events
    ∷ table_set_u64 "session.relay_opens" c.relay_opens
    ∷ table_set_u64 "session.relay_closes" c.relay_closes
    ∷ []
