-- ===== src/Main/Released.antt =====
-- What the server of src/main.c has opened is closed when it ends, on each path.
use reactos_luagent.Base.{ℕ, ◌+◌, ◌≡◌, Bool, false, if◌then◌else◌, [], ◌∷◌, ◌++◌, Bytes, ℤ, arith}
use reactos_luagent.Main.{
  Trace, Call, portfwd_engine_init, lua_close, diag_init, diag_shutdown, Libs, Server, ◌>>=◌, call_,
  lua_engine_init, server_run,
}

-- How often a call was made.
abbrev pub is_close : Call → ℕ
is_close lua_close = 1
is_close c = 0

abbrev pub is_init : Call → ℕ
is_init diag_init = 1
is_init c = 0

abbrev pub is_shutdown : Call → ℕ
is_shutdown diag_shutdown = 1
is_shutdown c = 0

unfoldable pub count_calls : (Call → ℕ) → Trace → ℕ
count_calls f [] = 0
count_calls f (c ∷ t) = f c + count_calls f t

count_calls-snoc :
    (f : Call → ℕ) (t : Trace) (c : Call) → count_calls f (t ++ (c ∷ [])) ≡ count_calls f t + f c
unfolding count_calls
count_calls-snoc f [] c = omega arith
count_calls-snoc f (x ∷ t) c = omega (arith, count_calls-snoc f t c)

-- Whether Lua gives a state, and whether the engine is ready, when the server starts.
abbrev pub lua_made : Libs → Server → Bool
lua_made libs s = libs.lua_new_ok (s.trace ++ (diag_init ∷ []) ++ (portfwd_engine_init ∷ []))

abbrev pub engine_ready : Libs → Server → Bool
engine_ready libs s = (lua_engine_init libs (call_ diag_init s).1).0

-- Whatever Lua and libuv answer, `server_run` closes the Lua state once if it was made, and does not
-- keep it; the log is shut down once if the engine was ready, and else it is left open.
pub server_run_releases :
    (libs : Libs) (bind_host : Bytes) (port : ℤ) (s : Server)
    → let s' = (server_run libs bind_host port s).1 in
      (s'.has_lua ≡ false)
      × (count_calls is_close s'.trace
          ≡ count_calls is_close s.trace + (if lua_made libs s then 1 else 0))
      × (count_calls is_init s'.trace ≡ count_calls is_init s.trace + 1)
      × (count_calls is_shutdown s'.trace
          ≡ count_calls is_shutdown s.trace + (if engine_ready libs s then 1 else 0))
unfolding server_run lua_engine_init ◌>>=◌
server_run_releases libs bind_host port s = (
  grind (arith, count_calls-snoc),
  grind (arith, count_calls-snoc),
  grind (arith, count_calls-snoc),
  grind (arith, count_calls-snoc),
)
