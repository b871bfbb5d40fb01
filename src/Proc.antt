-- ===== src/Proc.antt =====
-- src/proc.c: the child process of a session.
pub mod Args
pub mod Spawn
pub mod Kept
pub mod Count
pub mod Vector
pub mod Closes
pub mod Life
use reactos_luagent.Base.{
  ℕ, ◌+◌, Bool, true, false, not, ◌&&◌, ◌||◌, ◌==◌, ltb, leb, if◌then◌else◌, [], Bytes, codes, ◌++◌,
  Option, none, some, ℤ, is_zero,
}
use reactos_luagent.Libc.{decimal, signed_decimal, sub_u64}
use reactos_luagent.Kv.{kv_u32}
use reactos_luagent.Frame.{FrameType, stdout, stderr, exit, ack}
use reactos_luagent.Machine.{
  close, stdout_handle, stderr_handle, process_handle, read_stop, process_kill, Handle, Os, Proc,
  KillReason, kill_none, kill_requested, kill_timeout, kill_idle, Session, State, Action, Rc,
  success, failure, ◌>>=◌, ◌>>◌, on_some, on_success, pure, get_session, modify, call, call_, when,
  util_now_ms,
}
use reactos_luagent.Diag.{process_exit, process_timeout, diag_count}
use reactos_luagent.Session.{
  util_snprintf, session_send_frame, session_send_text, session_send_error, reject,
}

unfoldable pub kill_reason_name : KillReason → Bytes
kill_reason_name kill_requested = codes "killed"
kill_reason_name kill_timeout = codes "timeout"
kill_reason_name kill_idle = codes "idle_timeout"
kill_reason_name kill_none = codes "exit"

-- The state after `proc_init`, and after `proc_reset`, which frees the file name and arguments.
abbrev pub reset_proc : Proc
reset_proc = record {
  active = false;
  stdout_closed = false;
  stderr_closed = false;
  proc_id = 0;
  started_ms = 0;
  last_io_ms = 0;
  timeout_ms = 0;
  idle_timeout_ms = 0;
  kill_reason = kill_none;
  file = none;
  args = none;
}

abbrev pub set_proc : (Proc → Proc) → Action Unit
set_proc f = modify (λ s. record s { proc = f s.proc })

abbrev pub proc_reset : Action Unit
proc_reset = set_proc (λ p. reset_proc)

unfoldable pub proc_maybe_finalize : Action Unit
proc_maybe_finalize = do
  session ← get_session
  let p = session.proc
  when (not p.active && p.stdout_closed && p.stderr_closed)
      (do call_ (close stdout_handle); call_ (close stderr_handle); proc_reset)

-- What libuv reports of a stream: bytes, nothing yet, or its end or an error.
pub data StreamRead : Type 0 where
  bytes : Bytes → StreamRead
  nothing ended : StreamRead

abbrev pub is_stdout : FrameType → Bool
is_stdout stdout = true
is_stdout _ = false

abbrev pub stream_handle : FrameType → Handle
stream_handle type = if is_stdout type then stdout_handle else stderr_handle

unfoldable pub proc_abort : Action Unit
proc_abort = do
  session ← get_session
  if session.proc.active
      then (do set_proc (λ p. record p { kill_reason = kill_requested }); call_ process_kill)
      else proc_reset

unfoldable pub exit_payload : ℕ → ℤ → Bytes → Bytes
exit_payload proc_id exit_status reason =
    codes "status=ok\nproc_id="
    ++ (decimal proc_id
        ++ (codes "\nexit_code=" ++ (signed_decimal exit_status ++ (codes "\nreason=" ++ reason))))

-- A kill by a timer: the reason is kept for the exit message.
unfoldable pub timed_out : KillReason → Action Unit
timed_out reason = do
  set_proc (λ p. record p { kill_reason = reason })
  diag_count process_timeout
  call_ process_kill

unfoldable pub proc_check_timeouts : ℕ → Action Unit
proc_check_timeouts now_ms = do
  session ← get_session
  let p = session.proc
  if not p.active
      then pure tt
      else if ltb 0 p.timeout_ms && leb p.timeout_ms (sub_u64 now_ms p.started_ms)
      then timed_out kill_timeout
      else if ltb 0 p.idle_timeout_ms && leb p.idle_timeout_ms (sub_u64 now_ms p.last_io_ms)
      then timed_out kill_idle
      else pure tt

module _ (os : Os) where
  -- `read_cb` with the context of the stream that `frame_type` names.
  unfoldable pub proc_read_cb : FrameType → StreamRead → Action Unit
  proc_read_cb frame_type (bytes buf) = do
    now ← util_now_ms os
    set_proc (λ p. record p { last_io_ms = now })
    session ← get_session
    session_send_frame os frame_type session.proc.proc_id buf
    pure tt
  proc_read_cb frame_type nothing = pure tt
  proc_read_cb frame_type ended = do
    call_ (read_stop (stream_handle frame_type))
    set_proc (λ p.
        if is_stdout frame_type
        then record p { stdout_closed = true }
        else record p { stderr_closed = true })
    proc_maybe_finalize

  unfoldable pub proc_exit_cb : ℤ → Action Unit
  proc_exit_cb exit_status = do
    set_proc (λ p. record p { active = false })
    session ← get_session
    let p = session.proc
    let reason = kill_reason_name p.kill_reason
    diag_count process_exit
    on_some (util_snprintf 256 (exit_payload p.proc_id exit_status reason)) (pure tt)
        λ payload. do session_send_text os exit p.proc_id payload; pure tt
    call_ (close process_handle)
    proc_maybe_finalize

  unfoldable pub proc_handle_kill : ℕ → Bytes → Action Rc
  proc_handle_kill req_id payload =
      on_some (kv_u32 os.ulong_max payload (codes "proc_id"))
        (reject os req_id "bad_payload" "missing proc_id")
        λ proc_id. do
          session ← get_session
          if not session.proc.active || not (session.proc.proc_id == proc_id)
              then reject os req_id "not_found" "process not active"
              else do
                set_proc (λ p. record p { kill_reason = kill_requested })
                rc ← call process_kill (λ t. os.kill_result t)
                if not (is_zero rc)
                    then reject os req_id "io_error" "kill failed"
                    else on_some
                        (util_snprintf 128 (codes "status=ok\nproc_id=" ++ decimal proc_id))
                        (reject os req_id "internal" "reply overflow")
                        λ reply. session_send_text os ack req_id reply
