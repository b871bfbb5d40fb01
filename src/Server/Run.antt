-- ===== src/Server/Run.antt =====
-- A session over its life: what libuv calls for it, one callback after the other. libuv runs one
-- callback at a time, so that a life is a sequence of them.
use reactos_luagent.Base.{ℕ, List, [], ◌∷◌, Bytes, ℤ}
use reactos_luagent.Frame.{stdout, stderr}
use reactos_luagent.Machine.{Os, State}
use reactos_luagent.Machine.Keeps.{Keeps}
use reactos_luagent.Invariant.{View, Kept, IsInvariant}
use reactos_luagent.Session.{write_completed}
use reactos_luagent.Session.Queue.{Queued}
use reactos_luagent.Transfer.Queue.{QueuedView, QueuedView-IsInvariant}
use reactos_luagent.Transfer.Stored.{StoresBelowLimit, UpTo}
use reactos_luagent.Transfer.Chunks.{UpTo-IsInvariant}
use reactos_luagent.Proc.{StreamRead, proc_read_cb, proc_exit_cb}
use reactos_luagent.Proc.Kept.{read_cb-Kept, exit_cb-Kept}
use reactos_luagent.Heartbeat.{heartbeat_cb}
use reactos_luagent.Protocol.{Lua}
use reactos_luagent.Server.{NRead, read_cb}
use reactos_luagent.Server.Kept.{heartbeat-Kept, client_read-Kept}

-- The callbacks: bytes from the client, the timer, a completed write, output of the process and
-- its exit.
pub data Callback : Type 0 where
  client_read : NRead → Callback
  timer_fired write_done : Callback
  stdout_read stderr_read : StreamRead → Callback
  process_exited : ℤ → Callback

module _ (os : Os) (lua : Lua) where
  unfoldable pub run_callback : Callback → State → State
  run_callback (client_read r) s = (read_cb os lua r s).1
  run_callback timer_fired s = (heartbeat_cb os s).1
  run_callback write_done s = write_completed s
  run_callback (stdout_read r) s = (proc_read_cb os stdout r s).1
  run_callback (stderr_read r) s = (proc_read_cb os stderr r s).1
  run_callback (process_exited status) s = (proc_exit_cb os status s).1

  unfoldable pub run_callbacks : List Callback → State → State
  run_callbacks [] s = s
  run_callbacks (c ∷ cs) s = run_callbacks cs (run_callback c s)

module _ (os : Os) (F : View → Type 0) (inv : IsInvariant os F) (lua : Lua)
    (lua-Kept : (req_id : ℕ) (payload : Bytes) → Keeps (Kept F) (lua.pcall req_id payload)) where
  pub run_callback-Kept : (c : Callback) (s : State) → Kept F s → Kept F (run_callback os lua c s)
  unfolding run_callback
  run_callback-Kept (client_read r) s h = (client_read-Kept os F inv lua lua-Kept r).at s h
  run_callback-Kept timer_fired s h = (heartbeat-Kept os F inv.sends inv.aborts).at s h
  run_callback-Kept write_done s h = inv.completes s h
  run_callback-Kept (stdout_read r) s h = (read_cb-Kept F inv.sends os stdout r).at s h
  run_callback-Kept (stderr_read r) s h = (read_cb-Kept F inv.sends os stderr r).at s h
  run_callback-Kept (process_exited status) s h = (exit_cb-Kept F inv.sends os status).at s h

  run-Kept : (cs : List Callback) (s : State) → Kept F s → Kept F (run_callbacks os lua cs s)
  unfolding run_callbacks
  run-Kept [] s h = h
  run-Kept (c ∷ cs) s h = run-Kept cs (run_callback os lua c s) (run_callback-Kept c s h)

-- If the counter `pending_write_bytes` is the sum of the writes that libuv holds for the session
-- and at most LUAGENT_MAX_WRITE_QUEUE_BYTES, and the operations written in Lua keep it so, then it
-- is so after any sequence of callbacks.
pub run-Queued :
    (os : Os) (lua : Lua)
    (lua-Queued : (req_id : ℕ) (payload : Bytes) → Keeps Queued (lua.pcall req_id payload))
    (cs : List Callback) (s : State)
    → Queued s
    → Queued (run_callbacks os lua cs s)
run-Queued os lua lua-Queued cs s h =
    run-Kept os QueuedView (QueuedView-IsInvariant os) lua lua-Queued cs s h

pub run-Stored :
    (os : Os) (lua : Lua)
    → StoresBelowLimit os
    → (lua-Stored : (req_id : ℕ) (payload : Bytes)
        → Keeps (Kept (UpTo os)) (lua.pcall req_id payload))
      (cs : List Callback) (s : State)
    → Kept (UpTo os) s
    → Kept (UpTo os) (run_callbacks os lua cs s)
run-Stored os lua limit lua-Stored cs s h =
    run-Kept os (UpTo os) (UpTo-IsInvariant os limit) lua lua-Stored cs s h
