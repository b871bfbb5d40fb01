-- ===== src/Main.antt =====
-- The start and the end of the server: src/main.c, `server_run` of src/server.c, and the engine's
-- `lua_engine_init` and `lua_engine_close` of src/lua_engine.c.
pub mod Released
use reactos_luagent.Base.{
  ℕ, zero, suc, ◌+◌, ◌-◌, ◌^◌, Bool, true, false, not, ◌||◌, ◌==◌, ltb, leb, if◌then◌else◌, List,
  [], ◌∷◌, ◌++◌, Bytes, codes, ℤ, pos, negsuc, is_zero, is_neg,
}
use reactos_luagent.Libc.{skip_space, read_digits}

-- The calls that set the server up, run it and take it down. `lua_new` is luaL_newstate and
-- `lua_dofile` runs lua/bootstrap.lua.
pub data Call : Type 0 where
  diag_init diag_shutdown : Call
  portfwd_engine_init portfwd_engine_close : Call
  lua_new lua_openlibs bindings_register lua_dofile lua_close : Call
  tcp_init : Call
  ip4_addr : Bytes → ℤ → Call
  tcp_bind tcp_listen loop_run : Call
  invalid_port : Bytes → Call

abbrev pub Trace : Type 0
Trace = List Call

-- What Lua and libuv answer, given the calls before.
pub record Libs : Type 0 where
  pub lua_new_ok : Trace → Bool
  pub bootstrap_ok : Trace → Bool
  pub tcp_init_result : Trace → ℤ
  pub ip4_addr_result : Trace → ℤ
  pub bind_result : Trace → ℤ
  pub listen_result : Trace → ℤ
  pub run_result : Trace → ℤ

-- `engine->L != NULL`, and the calls that were made, in order.
pub record Server : Type 0 where
  pub has_lua : Bool
  pub trace : Trace

abbrev pub Setup : Type 0 → Type 0
Setup A = Server → A × Server

unfoldable pub pure : {A : Type 0} → A → Setup A
pure a s = (a, s)

unfoldable pub call : {A : Type 0} → Call → (Trace → A) → Setup A
call c answer s = (answer s.trace, record s { trace = s.trace ++ (c ∷ []) })

unfoldable pub call_ : Call → Setup Unit
call_ c s = (tt, record s { trace = s.trace ++ (c ∷ []) })

unfoldable pub set_lua : Bool → Setup Unit
set_lua b s = (tt, record s { has_lua = b })

infixl 5 ◌>>=◌ ◌>>◌
unfoldable pub ◌>>=◌ : {A B : Type 0} → Setup A → (A → Setup B) → Setup B
unfolding pure call call_ set_lua
◌>>=◌ m f s = let (a, s') = m s in f a s'

abbrev pub ◌>>◌ : {A B : Type 0} → Setup A → Setup B → Setup B
m >> k = m >>= λ _. k

unfoldable pub lua_engine_close : Setup Unit
lua_engine_close = do
  call_ portfwd_engine_close
  open_ ← (λ s. (s.has_lua, s))
  if open_ then (do call_ lua_close; set_lua false) else pure tt

module _ (libs : Libs) where
  -- `false` is -1.
  unfoldable pub lua_engine_init : Setup Bool
  unfolding lua_engine_close
  lua_engine_init = do
    set_lua false
    call_ portfwd_engine_init
    made ← call lua_new libs.lua_new_ok
    if not made then pure false else do
      set_lua true
      call_ lua_openlibs
      call_ bindings_register
      booted ← call lua_dofile libs.bootstrap_ok
      if not booted then (do lua_engine_close; pure false) else pure true

  -- After a failed step, and the next step after one that did not fail.
  abbrev pub give_up : Setup ℤ
  give_up = do lua_engine_close; call_ diag_shutdown; pure (negsuc 0)

  abbrev pub on_zero : ℤ → Setup ℤ → Setup ℤ
  on_zero rc next = if is_zero rc then next else give_up

  unfoldable pub server_run : Bytes → ℤ → Setup ℤ
  unfolding lua_engine_init lua_engine_close
  server_run bind_host port = do
    call_ diag_init
    ready ← lua_engine_init
    if not ready then pure (negsuc 0) else do
      rc ← call tcp_init libs.tcp_init_result
      on_zero rc (do
        rc ← call (ip4_addr bind_host port) libs.ip4_addr_result
        on_zero rc (do
          rc ← call tcp_bind libs.bind_result
          on_zero rc (do
            rc ← call tcp_listen libs.listen_result
            on_zero rc (do
              rc ← call loop_run libs.run_result
              lua_engine_close
              call_ diag_shutdown
              pure rc))))

abbrev pub negated : ℕ → ℤ
negated zero = pos 0
negated (suc n) = negsuc n

-- `atoi`, for a value of an `int`.
unfoldable pub atoi_digits : Bytes → ℤ
unfolding read_digits
atoi_digits [] = pos 0
atoi_digits (c ∷ cs) =
    if c == b'-'
    then negated (read_digits 0 cs).0
    else if c == b'+'
    then pos (read_digits 0 cs).0
    else pos (read_digits 0 (c ∷ cs)).0

unfoldable pub atoi : Bytes → ℤ
unfolding skip_space atoi_digits
atoi s = atoi_digits (skip_space s)

-- `port <= 0`
abbrev pub is_positive : ℤ → Bool
is_positive (pos zero) = false
is_positive (pos (suc n)) = true
is_positive (negsuc n) = false

module _ (libs : Libs) where
  abbrev pub run_on : ℤ → Setup ℕ
  run_on port = do rc ← server_run libs (codes "0.0.0.0") port; pure (if is_zero rc then 0 else 1)

  -- The arguments behind the name of the program.
  unfoldable pub main : List Bytes → Setup ℕ
  unfolding server_run atoi
  main [] = run_on (pos 7000)
  main (text ∷ more) =
      if is_positive (atoi text) then run_on (atoi text) else (do call_ (invalid_port text); pure 1)
