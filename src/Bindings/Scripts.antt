-- ===== src/Bindings/Scripts.antt =====
-- Scripts in Lua as what they do to a session: calls of src/bindings.c, each of which may depend on
-- the results of those before.
use reactos_luagent.Base.{get_or, ℕ, List, [], ◌∷◌, Bytes, Bool, true, false}
use reactos_luagent.Frame.{FrameType}
use reactos_luagent.Machine.{Os, Trace, State, Action, pure, ◌>>=◌, ◌>>◌}
use reactos_luagent.Machine.Keeps.{Keeps, Keeps-bind, Keeps-pure, Keeps-option}
use reactos_luagent.Invariant.{View, Kept, IsInvariant, kept_rules, count_with-Kept}
use reactos_luagent.Session.{session_send_frame}
use reactos_luagent.Session.Queue.{Queued}
use reactos_luagent.Transfer.Stored.{StoresBelowLimit, UpTo}
use reactos_luagent.Transfer.Chunks.{UpTo-IsInvariant}
use reactos_luagent.Transfer.Queue.{QueuedView, QueuedView-IsInvariant}
use reactos_luagent.Proc.Kept.{spawn_direct-Kept}
use reactos_luagent.Protocol.{Lua}
use reactos_luagent.Server.Run.{Callback, run_callback, run_callback-Kept}
use reactos_luagent.Diag.{bump, relay_open, relay_close, diag_count}
use reactos_luagent.Bindings.{
  LuaApi, LuaResult, returns, raises, bad_argument, Scandir, l_log, l_now_ms, l_reply, l_error,
  l_fs_list, l_debug_sessions, l_debug_transfers, l_debug_procs, l_debug_stats, spawn_checked,
  l_proc_spawn,
}

-- The functions of `agent` that act on the session, and those that act on relays.
pub data Binding : Type 0 where
  log now_ms reply error fs_list proc_spawn : Binding
  debug_sessions debug_transfers debug_procs debug_stats : Binding

pub data Port : Type 0 where
  port_open port_close port_list : Port

-- A script that returns, or ends in an error that it does not catch, after finitely many calls. What
-- the functions on relays answer depends on the relays, which are not in the state of the session
-- (Bindings.Ports has them): the script has the answer that a call got, whatever it was, and whether the
-- relay that it closed was one of the session.
pub data Script (V : Type 0) : Type 0 where
  finished : Bool → Script V
  calls : Binding → List V → (LuaResult → Script V) → Script V
  answered : Port → LuaResult → Bool → Script V → Script V

-- The Lua state as a callback finds it: whether `dispatch` is defined, and what it does with a request.
-- Lua keeps its memory, so that this may be another one for each callback and each state.
pub record Engine (V : Type 0) : Type 0 where
  pub defined : State → Bool
  pub dispatch : State → ℕ → Bytes → Script V

-- What a call on relays counts: a relay that was opened, or closed, for the session or another one.
unfoldable pub relay_counts : Port → LuaResult → Bool → Action Unit
relay_counts port_open (returns r) own = diag_count relay_open
relay_counts port_close (returns r) true = diag_count relay_close
relay_counts port_close (returns r) false =
    λ s. (tt, record s { global = bump relay_close s.global })
relay_counts port_list (returns r) own = pure tt
relay_counts p (raises message) own = pure tt
relay_counts p (bad_argument i) own = pure tt

module _ (os : Os) (api : LuaApi) (scandir : Trace → Bytes → Scandir) where
  -- Inside lua_engine_dispatch the session is active.
  unfoldable pub call_binding : Binding → List api.Value → Action LuaResult
  call_binding log args = l_log os api scandir true args
  call_binding now_ms args = l_now_ms os api scandir true
  call_binding reply args = l_reply os api scandir true args
  call_binding error args = l_error os api scandir true args
  call_binding fs_list args = l_fs_list os api scandir true args
  call_binding proc_spawn args = l_proc_spawn os api scandir true args
  call_binding debug_sessions args = l_debug_sessions os api scandir true
  call_binding debug_transfers args = l_debug_transfers os api scandir true
  call_binding debug_procs args = l_debug_procs os api scandir true
  call_binding debug_stats args = l_debug_stats os api scandir true

  unfoldable pub run_script : Script api.Value → Action Bool
  unfolding call_binding
  run_script (finished fine) = pure fine
  run_script (calls b args k) = do r ← call_binding b args; run_script (k r)
  run_script (answered p r own k) = do relay_counts p r own; run_script k

  -- The engine of the server whose `dispatch` is a script.
  abbrev pub scripted : Engine api.Value → Lua
  scripted e = record {
    dispatch_defined = e.defined;
    pcall = λ req_id payload s. run_script (e.dispatch s req_id payload) s;
  }

  -- Callbacks, each with the Lua state that it finds.
  unfoldable pub run_engines : List (Callback × Engine api.Value) → State → State
  run_engines [] s = s
  run_engines ((c, e) ∷ rest) s = run_engines rest (run_callback os (scripted e) c s)

  module _ (F : View → Type 0)
      (sends : (os : Os) (type : FrameType) (req_id : ℕ) (payload : Bytes)
        → Keeps (Kept F) (session_send_frame os type req_id payload)) where
    spawn_checked-Kept :
        (path : Bytes) (timeout_ms idle_timeout_ms : ℕ) (values : List api.Value)
        → Keeps (Kept F) (spawn_checked os api scandir true path timeout_ms idle_timeout_ms values)
    unfolding spawn_checked
    spawn_checked-Kept path timeout_ms idle_timeout_ms values =
        search (kept_rules, spawn_direct-Kept, sends) depth 40

    call_binding-Kept : (b : Binding) (args : List api.Value) → Keeps (Kept F) (call_binding b args)
    unfolding call_binding l_log l_now_ms l_reply l_error l_fs_list l_debug_sessions
        l_debug_transfers l_debug_procs l_debug_stats l_proc_spawn
    call_binding-Kept log args = search kept_rules depth 30
    call_binding-Kept now_ms args = search kept_rules depth 30
    call_binding-Kept reply args = search (kept_rules, sends) depth 40
    call_binding-Kept error args = search (kept_rules, sends) depth 40
    call_binding-Kept fs_list args =
        Keeps-option (api.check_string (get_or args 0 api.no_value)) _ _
          (Keeps-pure (bad_argument 1)) (λ path. record { at = λ s h. h })
    call_binding-Kept proc_spawn args = search (kept_rules, spawn_checked-Kept) depth 40
    call_binding-Kept debug_sessions args = search kept_rules depth 30
    call_binding-Kept debug_transfers args = search kept_rules depth 30
    call_binding-Kept debug_procs args = search kept_rules depth 30
    call_binding-Kept debug_stats args = record { at = λ s h. h }

    relay_counts-Kept :
        (p : Port) (r : LuaResult) (own : Bool) → Keeps (Kept F) (relay_counts p r own)
    unfolding relay_counts
    relay_counts-Kept port_open (returns r) own = count_with-Kept F _
    relay_counts-Kept port_close (returns r) true = count_with-Kept F _
    relay_counts-Kept port_close (returns r) false = record { at = λ s h. h }
    relay_counts-Kept port_list (returns r) own = Keeps-pure tt
    relay_counts-Kept port_open (raises message) own = Keeps-pure tt
    relay_counts-Kept port_close (raises message) own = Keeps-pure tt
    relay_counts-Kept port_list (raises message) own = Keeps-pure tt
    relay_counts-Kept port_open (bad_argument i) own = Keeps-pure tt
    relay_counts-Kept port_close (bad_argument i) own = Keeps-pure tt
    relay_counts-Kept port_list (bad_argument i) own = Keeps-pure tt

    pub run_script-Kept : (script : Script api.Value) → Keeps (Kept F) (run_script script)
    unfolding run_script
    run_script-Kept (finished fine) = Keeps-pure fine
    run_script-Kept (calls b args k) =
        Keeps-bind _ _ (call_binding-Kept b args) (λ r. run_script-Kept (k r))
    run_script-Kept (answered p r own k) =
        Keeps-bind _ _ (relay_counts-Kept p r own) (λ u. run_script-Kept k)

  pub run_engines-Kept :
      (F : View → Type 0)
      → IsInvariant os F
      → (runs : List (Callback × Engine api.Value)) (s : State) → Kept F s
      → Kept F (run_engines runs s)
  unfolding run_engines
  run_engines-Kept F inv [] s h = h
  run_engines-Kept F inv ((c, e) ∷ rest) s h =
      run_engines-Kept F inv rest (run_callback os (scripted e) c s) (
        run_callback-Kept os F inv (scripted e)
          (λ req_id payload. record {
            at = λ s' h'. (run_script-Kept F inv.sends (e.dispatch s' req_id payload)).at s' h';
          })
          c s h)

-- With scripts in Lua that end after finitely many calls of the functions of `agent`, those on relays
-- with any answers, and that may be others for each callback and depend on the state, the bound of the
-- write queue holds over any sequence of callbacks: if `pending_write_bytes` is the sum of the writes
-- that libuv holds and at most LUAGENT_MAX_WRITE_QUEUE_BYTES, then it is so afterwards.
pub scripts-Queued :
    (os : Os) (api : LuaApi) (scandir : Trace → Bytes → Scandir)
    (runs : List (Callback × Engine api.Value)) (s : State)
    → Queued s
    → Queued (run_engines os api scandir runs s)
scripts-Queued os api scandir runs s h =
    run_engines-Kept os api scandir QueuedView (QueuedView-IsInvariant os) runs s h

pub scripts-Stored :
    (os : Os) (api : LuaApi) (scandir : Trace → Bytes → Scandir)
    → StoresBelowLimit os
    → (runs : List (Callback × Engine api.Value)) (s : State) → Kept (UpTo os) s
    → Kept (UpTo os) (run_engines os api scandir runs s)
scripts-Stored os api scandir limit runs s h =
    run_engines-Kept os api scandir (UpTo os) (UpTo-IsInvariant os limit) runs s h
