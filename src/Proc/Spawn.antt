-- ===== src/Proc/Spawn.antt =====
-- `proc_spawn_common` and its two callers.
use reactos_luagent.Base.{
  ℕ, ◌+◌, Bool, true, false, not, ◌&&◌, if◌then◌else◌, List, Bytes, codes, ◌++◌, length, none, some,
  ℤ, is_zero,
}
use reactos_luagent.Libc.{decimal}
use reactos_luagent.Kv.{kv_copy}
use reactos_luagent.Frame.{ack}
use reactos_luagent.Machine.{
  bytes_block, read_ctx_block, close, stdout_handle, stderr_handle, pipe_init, read_start, spawn,
  kill_none, Os, Action, Rc, success, failure, ◌>>=◌, ◌>>◌, on_some, pure, get_session, modify,
  call, call_, allocate, util_now_ms, inc_u32,
}
use reactos_luagent.Diag.{process_spawn, diag_count}
use reactos_luagent.Session.{add_ref, util_snprintf, session_send_text, session_send_error, reject}
use reactos_luagent.Transfer.Upload.{text_of}
use reactos_luagent.Proc.{set_proc, proc_reset}
use reactos_luagent.Proc.Args.{proc_build_args, proc_dup_args, kv_u64_default}

module _ (os : Os) where
  -- After a libuv call that failed with `rc`.
  unfoldable pub spawn_failed : ℕ → ℤ → Action Rc
  spawn_failed req_id rc = do
    proc_reset
    session_send_error os req_id (codes "spawn_failed") (os.strerror rc)
    pure failure

  abbrev pub close_pipes : Action Unit
  close_pipes = do call_ (close stdout_handle); call_ (close stderr_handle)

  -- The acknowledgement; what fails here leaves the process running.
  unfoldable pub spawn_reply : ℕ → Action Rc
  spawn_reply req_id = do
    session ← get_session
    on_some
        (util_snprintf 256 (
          codes "status=ok\nproc_id="
          ++ (decimal session.proc.proc_id ++ (codes "\npath=" ++ text_of session.proc.file))))
        (reject os req_id "internal" "reply overflow")
        λ reply. session_send_text os ack req_id reply

  -- From the allocation of the read contexts on.
  unfoldable pub spawn_start : ℕ → Bytes → List Bytes → Bool → Action Rc
  spawn_start req_id path args send_ack = do
    have_out ← allocate os read_ctx_block
    have_err ← allocate os read_ctx_block
    if not (have_out && have_err)
        then (do close_pipes; proc_reset; reject os req_id "internal" "out of memory")
        else do
          rc ← call (spawn path args) (λ t. os.spawn_result t path args)
          if not (is_zero rc) then (do close_pipes; spawn_failed req_id rc) else do
            set_proc (λ p. record p { active = true })
            add_ref
            add_ref
            add_ref
            call_ (read_start stdout_handle)
            call_ (read_start stderr_handle)
            if not send_ack then pure success else spawn_reply req_id

  -- From the pipes on.
  unfoldable pub spawn_pipes : ℕ → Bytes → List Bytes → Bool → Action Rc
  spawn_pipes req_id path args send_ack = do
    rc ← call (pipe_init stdout_handle) (λ t. os.pipe_init_result t stdout_handle)
    if not (is_zero rc) then spawn_failed req_id rc else do
      rc2 ← call (pipe_init stderr_handle) (λ t. os.pipe_init_result t stderr_handle)
      if not (is_zero rc2)
          then (do call_ (close stdout_handle); spawn_failed req_id rc2)
          else spawn_start req_id path args send_ack

  unfoldable pub proc_spawn_common : ℕ → Bytes → List Bytes → ℕ → ℕ → Bool → Action Rc
  proc_spawn_common req_id path args timeout_ms idle_timeout_ms send_ack = do
    session ← get_session
    if session.proc.active then reject os req_id "spawn_failed" "process already active" else do
      proc_reset
      have_file ← allocate os (bytes_block (length path + 1))
      set_proc (λ p. record p { file = if have_file then some path else none; args = some args })
      if not have_file then (do proc_reset; reject os req_id "internal" "out of memory") else do
        set_proc (λ p. record p { proc_id = session.next_proc_id })
        modify (λ s. record s { next_proc_id = inc_u32 s.next_proc_id })
        now ← util_now_ms os
        set_proc (λ p. record p {
          started_ms = now;
          last_io_ms = now;
          timeout_ms = timeout_ms;
          idle_timeout_ms = idle_timeout_ms;
          kill_reason = kill_none;
        })
        diag_count process_spawn
        spawn_pipes req_id path args send_ack

  -- `*proc_id_out` is the identifier in the state after a success. The path is not NULL.
  unfoldable pub proc_spawn_direct : Bytes → List Bytes → ℕ → ℕ → Action Rc
  proc_spawn_direct path argv timeout_ms idle_timeout_ms = do
    args ← proc_dup_args os argv
    on_some args (pure failure)
        λ copied. proc_spawn_common 0 path copied timeout_ms idle_timeout_ms false

  unfoldable pub proc_handle_spawn : ℕ → Bytes → Action Rc
  proc_handle_spawn req_id payload =
      on_some (kv_copy 512 payload (codes "path")) (reject os req_id "bad_payload" "missing path")
        λ path. do
          args ← proc_build_args os payload path
          on_some args (reject os req_id "internal" "out of memory") λ built.
              proc_spawn_common req_id path built
                (kv_u64_default payload (codes "timeout_ms") 60000)
                (kv_u64_default payload (codes "idle_timeout_ms") 10000) true
