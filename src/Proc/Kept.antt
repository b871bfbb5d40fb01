-- ===== src/Proc/Kept.antt =====
-- The process handlers and callbacks keep an invariant that sending frames keeps.
use reactos_luagent.Base.{ℕ, zero, suc, ◌+◌, List, [], ◌∷◌, Bytes, Bool, Option, none, ℤ}
use reactos_luagent.Frame.{FrameType}
use reactos_luagent.Machine.{Os, KillReason, Action}
use reactos_luagent.Machine.Keeps.{Keeps, Keeps-option, Keeps-pure}
use reactos_luagent.Invariant.{View, Kept, kept_rules}
use reactos_luagent.Session.{session_send_frame}
use reactos_luagent.Proc.{
  StreamRead, bytes, nothing, ended, proc_maybe_finalize, proc_read_cb, proc_exit_cb,
  proc_handle_kill, timed_out, proc_check_timeouts,
}
use reactos_luagent.Proc.Args.{
  argv_value, copy_one, dup_args, copy_args, proc_build_args, proc_dup_args,
}
use reactos_luagent.Proc.Spawn.{
  spawn_failed, spawn_reply, spawn_start, spawn_pipes, proc_spawn_common, proc_spawn_direct,
  proc_handle_spawn,
}

module _ (F : View → Type 0)
    (sends : (os : Os) (type : FrameType) (req_id : ℕ) (payload : Bytes)
      → Keeps (Kept F) (session_send_frame os type req_id payload)) where
  pub maybe_finalize-Kept : Keeps (Kept F) proc_maybe_finalize
  unfolding proc_maybe_finalize
  maybe_finalize-Kept = search kept_rules depth 30

  timed_out-Kept : (reason : KillReason) → Keeps (Kept F) (timed_out reason)
  unfolding timed_out
  timed_out-Kept reason = search kept_rules depth 30

  pub check_timeouts-Kept : (now_ms : ℕ) → Keeps (Kept F) (proc_check_timeouts now_ms)
  unfolding proc_check_timeouts
  check_timeouts-Kept now_ms = search (kept_rules, timed_out-Kept) depth 30

  module _ (os : Os) where
    pub read_cb-Kept :
        (frame_type : FrameType) (r : StreamRead) → Keeps (Kept F) (proc_read_cb os frame_type r)
    unfolding proc_read_cb
    read_cb-Kept frame_type (bytes buf) = search kept_rules depth 30
    read_cb-Kept frame_type nothing = search kept_rules depth 30
    read_cb-Kept frame_type ended = search (kept_rules, maybe_finalize-Kept) depth 30

    pub exit_cb-Kept : (exit_status : ℤ) → Keeps (Kept F) (proc_exit_cb os exit_status)
    unfolding proc_exit_cb
    exit_cb-Kept exit_status = search (kept_rules, maybe_finalize-Kept) depth 30

    pub kill-Kept :
        (req_id : ℕ) (payload : Bytes) → Keeps (Kept F) (proc_handle_kill os req_id payload)
    unfolding proc_handle_kill
    kill-Kept req_id payload = search kept_rules depth 30

    copy_one-Kept :
        (v : Bytes) (more : Action (Option (List Bytes)))
        → Keeps (Kept F) more
        → Keeps (Kept F) (copy_one os v more)
    unfolding copy_one
    copy_one-Kept v more k = search kept_rules depth 30

    dup_args-Kept : (argv : List Bytes) → Keeps (Kept F) (dup_args os argv)
    unfolding dup_args
    dup_args-Kept [] = search kept_rules
    dup_args-Kept (v ∷ vs) = copy_one-Kept v _ (dup_args-Kept vs)

    copy_args-Kept :
        (left : ℕ) (payload : Bytes) (i : ℕ) → Keeps (Kept F) (copy_args os left payload i)
    unfolding copy_args
    copy_args-Kept zero payload i = search kept_rules
    copy_args-Kept (suc left) payload i =
        Keeps-option (argv_value payload i) _ _ (Keeps-pure none)
          (λ v. copy_one-Kept v _ (copy_args-Kept left payload (i + 1)))

    build_args-Kept : (payload path : Bytes) → Keeps (Kept F) (proc_build_args os payload path)
    unfolding proc_build_args
    build_args-Kept payload path = search (kept_rules, copy_args-Kept) depth 30

    proc_dup_args-Kept : (argv : List Bytes) → Keeps (Kept F) (proc_dup_args os argv)
    unfolding proc_dup_args
    proc_dup_args-Kept [] = search kept_rules
    proc_dup_args-Kept (v ∷ vs) = search (kept_rules, dup_args-Kept) depth 30

    spawn_failed-Kept : (req_id : ℕ) (rc : ℤ) → Keeps (Kept F) (spawn_failed os req_id rc)
    unfolding spawn_failed
    spawn_failed-Kept req_id rc = search kept_rules depth 30

    spawn_reply-Kept : (req_id : ℕ) → Keeps (Kept F) (spawn_reply os req_id)
    unfolding spawn_reply
    spawn_reply-Kept req_id = search kept_rules depth 30

    module _ (req_id : ℕ) (path : Bytes) (args : List Bytes) where
      spawn_start-Kept :
          (send_ack : Bool) → Keeps (Kept F) (spawn_start os req_id path args send_ack)
      unfolding spawn_start
      spawn_start-Kept send_ack = search (kept_rules, spawn_failed-Kept, spawn_reply-Kept) depth 40

      spawn_pipes-Kept :
          (send_ack : Bool) → Keeps (Kept F) (spawn_pipes os req_id path args send_ack)
      unfolding spawn_pipes
      spawn_pipes-Kept send_ack = search (kept_rules, spawn_failed-Kept, spawn_start-Kept) depth 40

      spawn_common-Kept :
          (timeout_ms idle_timeout_ms : ℕ) (send_ack : Bool)
          → Keeps
              (Kept F)
              (proc_spawn_common os req_id path args timeout_ms idle_timeout_ms send_ack)
      unfolding proc_spawn_common
      spawn_common-Kept timeout_ms idle_timeout_ms send_ack =
          search (kept_rules, spawn_pipes-Kept) depth 40

    pub spawn_direct-Kept :
        (path : Bytes) (argv : List Bytes) (timeout_ms idle_timeout_ms : ℕ)
        → Keeps (Kept F) (proc_spawn_direct os path argv timeout_ms idle_timeout_ms)
    unfolding proc_spawn_direct
    spawn_direct-Kept path argv timeout_ms idle_timeout_ms =
        search (kept_rules, proc_dup_args-Kept, spawn_common-Kept) depth 30

    pub spawn-Kept :
        (req_id : ℕ) (payload : Bytes) → Keeps (Kept F) (proc_handle_spawn os req_id payload)
    unfolding proc_handle_spawn
    spawn-Kept req_id payload = search (kept_rules, build_args-Kept, spawn_common-Kept) depth 30
