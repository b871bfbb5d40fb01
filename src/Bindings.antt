-- ===== src/Bindings.antt =====
-- src/bindings.c: the functions of the table `agent` that scripts in Lua call. The Lua API is a
-- parameter: what it makes of a value as a string, an integer or a table.
pub mod Ports
pub mod Replies
pub mod Scripts
use reactos_luagent.Base.{
  true, false, [], ℕ, ◌-◌, ◌%◌, ◌^◌, ◌==◌, if◌then◌else◌, Bool, not, List, ◌∷◌, ◌++◌, Bytes, String,
  codes, get_or, bytes_eq, length, Option, none, some, ℤ, pos, negsuc,
}
use reactos_luagent.Libc.{c_string}
use reactos_luagent.Frame.{FrameType, ack, op_result, pong}
use reactos_luagent.Machine.{
  ◌>>=◌, ◌>>◌, Os, Trace, Action, pure, get_session, on_some, on_success, allocate, pointers_block,
  util_now_ms,
}
use reactos_luagent.Session.{session_send_text, session_send_error}
use reactos_luagent.Proc.Spawn.{proc_spawn_direct}
use reactos_luagent.Diag.Tables.{
  Table, TableValue, text, lua_integer, diag_push_sessions, diag_push_transfers, diag_push_procs,
  diag_push_stats,
}
use reactos_luagent.Portfwd.Engine.{Row}

-- The Lua API: `none` where luaL_checkstring, luaL_checkinteger or luaL_checktype raises an error.
pub record LuaApi : Type 1 where
  pub Value : Type 0
  pub no_value : Value
  pub is_none_or_nil : Value → Bool
  pub check_string : Value → Option Bytes
  pub check_integer : Value → Option ℤ
  pub check_table : Value → Option (List Value)

-- What a function leaves on the stack of Lua.
pub data LuaReturn : Type 0 where
  nothing : LuaReturn
  number : ℤ → LuaReturn
  boolean : Bool → LuaReturn
  names : List Bytes → LuaReturn
  table : Table → LuaReturn
  relay_rows : List Row → LuaReturn

-- `bad_argument` is an error of a luaL_check function, at an argument.
pub data LuaResult : Type 0 where
  returns : LuaReturn → LuaResult
  raises : Bytes → LuaResult
  bad_argument : ℕ → LuaResult

-- What uv_fs_scandir answers: an error, or the names in the directory.
pub data Scandir : Type 0 where
  scan_failed : ℤ → Scandir
  scanned : List Bytes → Scandir

-- The casts of a `lua_Integer`.
abbrev pub cast_u : ℕ → ℤ → ℕ
cast_u width (pos n) = n % 2 ^ width
cast_u width (negsuc n) = 2 ^ width - 1 - n % 2 ^ width

abbrev pub raise : String → Action LuaResult
raise message = pure (raises (codes message))

-- The frame type of a reply.
unfoldable pub reply_type : Bytes → FrameType
reply_type kind =
    if bytes_eq kind (codes "ACK")
    then ack
    else if bytes_eq kind (codes "OP_RESULT")
    then op_result
    else if bytes_eq kind (codes "PONG")
    then pong
    else op_result

-- `active` says whether the engine has an active session, which it has inside lua_engine_dispatch.
module _ (os : Os) (api : LuaApi) (scandir : Trace → Bytes → Scandir) (active : Bool) where
  -- Argument 1, 2, ...
  abbrev pub argument : List api.Value → ℕ → api.Value
  argument args i = get_or args (i - 1) api.no_value

  module _ (args : List api.Value) (i : ℕ) where
    -- A string of Lua is read as one of C, up to its first NUL.
    abbrev pub with_string : (Bytes → Action LuaResult) → Action LuaResult
    with_string k =
        on_some (api.check_string (argument args i)) (pure (bad_argument i)) λ s. k (c_string s)

    abbrev pub with_integer : (ℤ → Action LuaResult) → Action LuaResult
    with_integer k = on_some (api.check_integer (argument args i)) (pure (bad_argument i)) k

    abbrev pub opt_string : Bytes → (Bytes → Action LuaResult) → Action LuaResult
    opt_string default k = if api.is_none_or_nil (argument args i) then k default else with_string k

    abbrev pub opt_integer : ℤ → (ℤ → Action LuaResult) → Action LuaResult
    opt_integer default k =
        if api.is_none_or_nil (argument args i) then k default else with_integer k

  abbrev pub with_session : Action LuaResult → Action LuaResult
  with_session m = if active then m else raise "no active session"

  -- The line that is logged changes nothing.
  unfoldable pub l_log : List api.Value → Action LuaResult
  l_log args = with_string args 1 λ level. with_string args 2 λ msg. pure (returns nothing)

  unfoldable pub l_now_ms : Action LuaResult
  l_now_ms = do now ← util_now_ms os; pure (returns (number (lua_integer now)))

  unfoldable pub l_reply : List api.Value → Action LuaResult
  l_reply args = with_integer args 1 λ req_id. with_string args 2 λ kind.
      opt_string args 3 [] λ payload. with_session do
        rc ← session_send_text os (reply_type kind) (cast_u 32 req_id) payload
        on_success rc (raise "failed to send reply") (pure (returns nothing))

  unfoldable pub l_error : List api.Value → Action LuaResult
  l_error args = with_integer args 1 λ req_id. with_string args 2 λ code.
      opt_string args 3 [] λ message. with_session do
        rc ← session_send_error os (cast_u 32 req_id) code message
        on_success rc (raise "failed to send error") (pure (returns nothing))

  abbrev pub list_names : Bytes → Scandir → LuaResult
  list_names path (scan_failed rc) =
      raises (codes "fs_list failed for '" ++ (path ++ (codes "': " ++ os.strerror rc)))
  list_names path (scanned found) = returns (names found)

  unfoldable pub l_fs_list : List api.Value → Action LuaResult
  l_fs_list args = with_string args 1 λ path s. (list_names path (scandir s.trace path), s)

  unfoldable pub l_debug_sessions : Action LuaResult
  l_debug_sessions = with_session do s ← get_session; pure (returns (table (diag_push_sessions s)))

  unfoldable pub l_debug_transfers : Action LuaResult
  l_debug_transfers =
      with_session do s ← get_session; pure (returns (table (diag_push_transfers s)))

  unfoldable pub l_debug_procs : Action LuaResult
  l_debug_procs = with_session do s ← get_session; pure (returns (table (diag_push_procs s)))

  unfoldable pub l_debug_stats : Action LuaResult
  l_debug_stats = with_session λ s. (returns (table (diag_push_stats s)), s)

  -- The elements of argument 2 as strings. An error in one leaves the array of `calloc` allocated.
  unfoldable pub check_strings : List api.Value → Option (List Bytes)
  check_strings [] = some []
  check_strings (v ∷ vs) = elim (api.check_string v) [
    | none ↦ none
    | some s ↦ elim (check_strings vs) [ none ↦ none | some ss ↦ some (c_string s ∷ ss) ]
  ]

  unfoldable pub spawn_checked : Bytes → ℕ → ℕ → List api.Value → Action LuaResult
  unfolding check_strings
  spawn_checked path timeout_ms idle_timeout_ms values =
      if length values == 0 then raise "argv table must not be empty" else do
        there ← allocate os (pointers_block (length values))
        if not there
            then raise "out of memory"
            else on_some (check_strings values) (pure (bad_argument 2)) λ argv. do
              rc ← proc_spawn_direct os path argv timeout_ms idle_timeout_ms
              s ← get_session
              on_success rc (raise "proc_spawn failed") (
                  pure (
                    returns (
                      table (
                        (codes "proc_id", TableValue.integer (lua_integer s.proc.proc_id))
                        ∷ (codes "path", text path)
                        ∷ []))))

  unfoldable pub l_proc_spawn : List api.Value → Action LuaResult
  unfolding spawn_checked
  l_proc_spawn args = with_string args 1 λ path. opt_integer args 3 (pos 60000) λ timeout_ms.
      opt_integer args 4 (pos 10000) λ idle_timeout_ms. with_session (
        on_some (api.check_table (argument args 2)) (pure (bad_argument 2))
          λ values. spawn_checked path (cast_u 64 timeout_ms) (cast_u 64 idle_timeout_ms) values)
