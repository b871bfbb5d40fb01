-- ===== src/Bindings/Ports.antt =====
-- The functions of src/bindings.c on relays: commands on the relays of the engine.
use reactos_luagent.Base.{
  ◌+◌, ℕ, ◌%◌, ◌^◌, List, [], ◌∷◌, ◌++◌, Bytes, codes, get_or, Option, some, true, if◌then◌else◌,
}
use reactos_luagent.Libc.{c_string}
use reactos_luagent.Diag.Tables.{TableValue, lua_integer}
use reactos_luagent.Portfwd.{Net, Cmd, pure, ◌>>=◌, on_null}
use reactos_luagent.Portfwd.Engine.{
  RelayRc, relay_ok, uv_enomem, uv_eio, uv_einval, uv_eaddrinuse, uv_enoent, portfwd_close,
  portfwd_push_list,
}
use reactos_luagent.Portfwd.Open.{Opened, portfwd_open}
use reactos_luagent.Bindings.{
  LuaApi, LuaResult, returns, raises, bad_argument, boolean, table, relay_rows, cast_u,
}

-- `strerror` is uv_strerror on the errors of src/portfwd.c, `session` the active session of the
-- engine, and `bound` a bound on the number of relays.
module _ (net : Net) (api : LuaApi) (strerror : RelayRc → Bytes) (session : Option ℕ)
    (bound : ℕ) where
  module _ (args : List api.Value) (i : ℕ) where
    abbrev with_port : (ℕ → Cmd LuaResult) → Cmd LuaResult
    with_port k =
        on_null (api.check_integer (get_or args i api.no_value)) (pure (bad_argument (i + 1)))
          λ n. k (cast_u 32 n)

    abbrev opt_host : Bytes → (Bytes → Cmd LuaResult) → Cmd LuaResult
    opt_host default k =
        if api.is_none_or_nil (get_or args i api.no_value)
        then k default
        else on_null (api.check_string (get_or args i api.no_value)) (pure (bad_argument (i + 1)))
            λ s. k (c_string s)

  abbrev pub open_answer : Opened → LuaResult
  open_answer o = of_rc o.rc
    where
      error : LuaResult
      error = raises (codes "port_open failed: " ++ strerror o.rc)

      of_rc : RelayRc → LuaResult
      of_rc relay_ok = returns (
          table (
            (codes "relay_id", TableValue.integer (lua_integer o.relay_id))
            ∷ (codes "listen_port", TableValue.integer (lua_integer o.actual_port))
            ∷ []))
      of_rc uv_enomem = error
      of_rc uv_eio = error
      of_rc uv_einval = error
      of_rc uv_eaddrinuse = error
      of_rc uv_enoent = error

  -- Ports are cast to 16 bits.
  unfoldable pub l_port_open : List api.Value → Cmd LuaResult
  l_port_open args = opt_host args 0 (codes "0.0.0.0") λ listen_host.
      with_port args 1 λ listen_port. opt_host args 2 (codes "127.0.0.1") λ target_host.
        with_port args 3 λ target_port.
          on_null session (pure (raises (codes "no active session"))) λ owner. do
            o ←
                portfwd_open net owner (some listen_host) (listen_port % 2 ^ 16) (some target_host)
                  (target_port % 2 ^ 16)
            pure (open_answer o)

  abbrev pub close_answer : RelayRc → LuaResult
  close_answer relay_ok = returns (boolean true)
  close_answer uv_enomem = raises (codes "port_close failed: " ++ strerror uv_enomem)
  close_answer uv_eio = raises (codes "port_close failed: " ++ strerror uv_eio)
  close_answer uv_einval = raises (codes "port_close failed: " ++ strerror uv_einval)
  close_answer uv_eaddrinuse = raises (codes "port_close failed: " ++ strerror uv_eaddrinuse)
  close_answer uv_enoent = raises (codes "port_close failed: " ++ strerror uv_enoent)

  -- Any session may close any relay of the engine.
  unfoldable pub l_port_close : List api.Value → Cmd LuaResult
  l_port_close args =
      with_port args 0 λ relay_id. do rc ← portfwd_close bound relay_id; pure (close_answer rc)

  unfoldable pub l_port_list : Cmd LuaResult
  l_port_list =
      on_null session (pure (raises (codes "no active session")))
        λ owner. do rows ← portfwd_push_list bound (some owner); pure (returns (relay_rows rows))
