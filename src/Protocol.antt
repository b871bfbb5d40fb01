-- ===== src/Protocol.antt =====
-- src/protocol.c and `lua_engine_dispatch` of src/lua_engine.c: what each frame sets off. Lua, and
-- the operations that are written in it, are a parameter.
pub mod Types
use reactos_luagent.Base.{
  ℕ, ◌+◌, Bool, true, false, not, ◌==◌, if◌then◌else◌, Bytes, String, codes, length, Option, none,
  some,
}
use reactos_luagent.Libc.{c_string}
use reactos_luagent.Frame.{
  FrameType, hello, ack, error, op, op_result, put_begin, put_chunk, put_end, get_begin, get_chunk,
  get_end, proc_spawn, stdin, stdout, stderr, exit, kill, ping, pong, type_code,
}
use reactos_luagent.Machine.{
  bytes_block, Os, State, Action, Rc, success, failure, ◌>>=◌, ◌>>◌, on_some, on_success, pure,
  allocate,
}
use reactos_luagent.Diag.{protocol_error, lua_error, diag_count}
use reactos_luagent.Session.{session_send_text, session_send_error, reject}
use reactos_luagent.Transfer.Upload.{
  transfer_handle_put_begin, transfer_handle_put_chunk, transfer_handle_put_end,
}
use reactos_luagent.Transfer.Download.{transfer_handle_get_begin}
use reactos_luagent.Proc.{proc_handle_kill}
use reactos_luagent.Proc.Spawn.{proc_handle_spawn}

-- The enumerator of a type byte, for `switch (type)`.
unfoldable pub frame_type_of : ℕ → Option FrameType
frame_type_of n =
    if n == 1
    then some hello
    else if n == 2
    then some ack
    else if n == 3
    then some error
    else if n == 10
    then some op
    else if n == 11
    then some op_result
    else if n == 20
    then some put_begin
    else if n == 21
    then some put_chunk
    else if n == 22
    then some put_end
    else if n == 30
    then some get_begin
    else if n == 31
    then some get_chunk
    else if n == 32
    then some get_end
    else if n == 40
    then some proc_spawn
    else if n == 41
    then some stdin
    else if n == 42
    then some stdout
    else if n == 43
    then some stderr
    else if n == 44
    then some exit
    else if n == 45
    then some kill
    else if n == 50
    then some ping
    else if n == 51
    then some pong
    else none

-- STDIN has no case of its own.
unfoldable pub protocol_type_name : Option FrameType → String
protocol_type_name (some hello) = "HELLO"
protocol_type_name (some ack) = "ACK"
protocol_type_name (some error) = "ERROR"
protocol_type_name (some op) = "OP"
protocol_type_name (some op_result) = "OP_RESULT"
protocol_type_name (some put_begin) = "PUT_BEGIN"
protocol_type_name (some put_chunk) = "PUT_CHUNK"
protocol_type_name (some put_end) = "PUT_END"
protocol_type_name (some get_begin) = "GET_BEGIN"
protocol_type_name (some get_chunk) = "GET_CHUNK"
protocol_type_name (some get_end) = "GET_END"
protocol_type_name (some proc_spawn) = "PROC_SPAWN"
protocol_type_name (some stdout) = "STDOUT"
protocol_type_name (some stderr) = "STDERR"
protocol_type_name (some exit) = "EXIT"
protocol_type_name (some kill) = "KILL"
protocol_type_name (some ping) = "PING"
protocol_type_name (some pong) = "PONG"
protocol_type_name _ = "UNKNOWN"

-- The Lua state: whether the global `dispatch_request` is a function, and what a protected call
-- of it does to the session, with `true` for LUA_OK.
pub record Lua : Type 0 where
  pub dispatch_defined : State → Bool
  pub pcall : ℕ → Bytes → Action Bool

-- `active_session` is set for the call only.
unfoldable pub lua_engine_dispatch : Lua → ℕ → Bytes → Action Rc
lua_engine_dispatch lua req_id payload = do
  defined ← (λ s. (lua.dispatch_defined s, s))
  if not defined then pure failure else do
    ok ← lua.pcall req_id payload
    if ok then pure success else do diag_count lua_error; pure failure

module _ (os : Os) (lua : Lua) where
  unfoldable pub handle_op : ℕ → Bytes → Action Rc
  handle_op req_id payload = do
    rc ← lua_engine_dispatch lua req_id payload
    on_success rc (do diag_count protocol_error; reject os req_id "internal" "lua dispatch failed")
        (pure success)

  -- The second `switch`, on the copy of the payload with a NUL behind it.
  unfoldable pub handle_text : Option FrameType → ℕ → Bytes → Action Rc
  handle_text (some hello) req_id payload =
      session_send_text os ack req_id (codes "status=ok\nmessage=hello")
  handle_text (some ping) req_id payload = session_send_text os pong req_id (codes "status=ok")
  handle_text (some op) req_id payload = handle_op req_id payload
  handle_text (some put_begin) req_id payload = transfer_handle_put_begin os req_id payload
  handle_text (some get_begin) req_id payload = transfer_handle_get_begin os req_id payload
  handle_text (some proc_spawn) req_id payload = proc_handle_spawn os req_id payload
  handle_text (some kill) req_id payload = proc_handle_kill os req_id payload
  handle_text _ req_id payload = do
    diag_count protocol_error
    reject os req_id "bad_type" "unsupported frame type"

  -- The first `switch`, and the copy for the second.
  unfoldable pub handle_frame : Option FrameType → ℕ → Bytes → Action Rc
  handle_frame (some put_chunk) req_id payload = transfer_handle_put_chunk os req_id payload
  handle_frame (some put_end) req_id payload = transfer_handle_put_end os req_id
  handle_frame other req_id payload = do
    copied ← allocate os (bytes_block (length payload + 1))
    if not copied
        then reject os req_id "internal" "out of memory"
        else handle_text other req_id (c_string payload)

  unfoldable pub protocol_handle_control : ℕ → ℕ → Bytes → Action Rc
  protocol_handle_control type req_id payload = handle_frame (frame_type_of type) req_id payload
