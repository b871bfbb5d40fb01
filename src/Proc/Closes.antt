-- ===== src/Proc/Closes.antt =====
-- The handles of a process in src/proc.c, and what the rest of a session's callbacks leave of them.
use reactos_luagent.Base.{
  true, false, leb, if◌then◌else◌, is_zero, ℕ, ◌+◌, Bool, [], ◌∷◌, Bytes, Option, none, some,
}
use reactos_luagent.Frame.{FrameType}
use reactos_luagent.Machine.{
  Rc, process_handle, stdout_handle, stderr_handle, close, Trace, State, Counters, Os, KillReason,
}
use reactos_luagent.Machine.Keeps.{Keeps, keeps_rules}
use reactos_luagent.Diag.{count_with}
use reactos_luagent.Session.{
  session_close, session_send_frame, session_send_text, session_send_error, send_allocated,
  send_encoded, send_buffer, uv_write, write_completed, on_write_done,
}
use reactos_luagent.Machine.{util_now_ms}
use reactos_luagent.Transfer.{
  Slot, upload_slot, download_slot, transfer_check_timeout, transfer_abort_slot, unlink_if_set,
  transfer_reset, put_transfer,
}
use reactos_luagent.Proc.{timed_out, proc_check_timeouts}
use reactos_luagent.Heartbeat.{heartbeat_cb, send_ping}

-- How often a handle of the process was closed.
abbrev pub process_closes : Trace → ℕ
process_closes [] = 0
process_closes (close process_handle ∷ t) = process_closes t + 1
process_closes (e ∷ t) = process_closes t

abbrev pub stdout_closes : Trace → ℕ
stdout_closes [] = 0
stdout_closes (close stdout_handle ∷ t) = stdout_closes t + 1
stdout_closes (e ∷ t) = stdout_closes t

abbrev pub stderr_closes : Trace → ℕ
stderr_closes [] = 0
stderr_closes (close stderr_handle ∷ t) = stderr_closes t + 1
stderr_closes (e ∷ t) = stderr_closes t

pub record ProcView : Type 0 where
  pub active : Bool
  pub out_closed : Bool
  pub err_closed : Bool
  pub process : ℕ
  pub out : ℕ
  pub err : ℕ

abbrev pub proc_view : State → ProcView
proc_view s = record {
  active = s.session.proc.active;
  out_closed = s.session.proc.stdout_closed;
  err_closed = s.session.proc.stderr_closed;
  process = process_closes s.trace;
  out = stdout_closes s.trace;
  err = stderr_closes s.trace;
}

abbrev pub ViewKept : (ProcView → Type 0) → State → Type 0
ViewKept G s = G (proc_view s)

module _ (G : ProcView → Type 0) where
  pub count_with-ViewKept : (f : Counters → Counters) → Keeps (ViewKept G) (count_with f)
  unfolding count_with
  count_with-ViewKept f = record { at = λ s h. h }

  pub session_close-ViewKept : Keeps (ViewKept G) session_close
  unfolding session_close
  session_close-ViewKept = search (keeps_rules, count_with-ViewKept) depth 30

  pub util_now_ms-ViewKept : (os : Os) → Keeps (ViewKept G) (util_now_ms os)
  unfolding util_now_ms
  util_now_ms-ViewKept os = search keeps_rules

  either_kept :
      (b : Bool) (x y : Rc × State)
      → ViewKept G x.1
      → ViewKept G y.1
      → ViewKept G (if b then x else y).1
  either_kept true x y hx hy = hx
  either_kept false x y hx hy = hy

  uv_write-ViewKept : (os : Os) (buf : Bytes) → Keeps (ViewKept G) (uv_write os buf)
  unfolding uv_write
  uv_write-ViewKept os buf = record {
    at = λ s h. either_kept (is_zero (os.tcp_write_result s.trace buf)) _ _ h h;
  }

  send_buffer-ViewKept : (os : Os) (buf : Bytes) → Keeps (ViewKept G) (send_buffer os buf)
  unfolding send_buffer
  send_buffer-ViewKept os buf =
      search (keeps_rules, count_with-ViewKept, util_now_ms-ViewKept, uv_write-ViewKept) depth 30

  send_encoded-ViewKept :
      (os : Os) (payload : Bytes) (head : Option Bytes)
      → Keeps (ViewKept G) (send_encoded os payload head)
  unfolding send_encoded
  send_encoded-ViewKept os payload none = search keeps_rules
  send_encoded-ViewKept os payload (some head) = send_buffer-ViewKept os _

  pub send_frame-ViewKept :
      (os : Os) (type : FrameType) (req_id : ℕ) (payload : Bytes)
      → Keeps (ViewKept G) (session_send_frame os type req_id payload)
  unfolding session_send_frame send_allocated
  send_frame-ViewKept os type req_id payload =
      search (keeps_rules, session_close-ViewKept, send_encoded-ViewKept) depth 40

  pub send_text-ViewKept :
      (os : Os) (type : FrameType) (req_id : ℕ) (payload : Bytes)
      → Keeps (ViewKept G) (session_send_text os type req_id payload)
  unfolding session_send_text
  send_text-ViewKept os type req_id payload = send_frame-ViewKept os type req_id _

  pub send_error-ViewKept :
      (os : Os) (req_id : ℕ) (code message : Bytes)
      → Keeps (ViewKept G) (session_send_error os req_id code message)
  unfolding session_send_error
  send_error-ViewKept os req_id code message = search (keeps_rules, send_text-ViewKept)

pub ruleset view_rules = (
  keeps_rules, count_with-ViewKept, session_close-ViewKept, util_now_ms-ViewKept,
  send_frame-ViewKept, send_text-ViewKept, send_error-ViewKept,
)

-- A completed write and the timer leave the process as it is, but for the reason of a kill.
module _ (G : ProcView → Type 0) where
  counted_down :
      (b : Bool) (x y : State) → ViewKept G x → ViewKept G y → ViewKept G (if b then x else y)
  counted_down true x y hx hy = hx
  counted_down false x y hx hy = hy

  pub write_completed-ViewKept : (s : State) → ViewKept G s → ViewKept G (write_completed s)
  unfolding write_completed on_write_done
  write_completed-ViewKept s h =
      elim s.in_flight
        as (λ l.
          ViewKept G
            (elim l [ [] ↦ s | len ∷ rest ↦ on_write_done len (record s { in_flight = rest }) ])) [
              | [] ↦ h
              | len ∷ rest ↦ counted_down (leb len s.session.pending_write_bytes) _ _ h h
            ]

  unlink-ViewKept : (p : Option Bytes) → Keeps (ViewKept G) (unlink_if_set p)
  unfolding unlink_if_set
  unlink-ViewKept none = search keeps_rules
  unlink-ViewKept (some p) = search keeps_rules

  reset-ViewKept : (slot : Slot) → Keeps (ViewKept G) (transfer_reset slot)
  unfolding transfer_reset put_transfer
  reset-ViewKept upload_slot = search keeps_rules
  reset-ViewKept download_slot = search keeps_rules

  abort-ViewKept : (slot : Slot) → Keeps (ViewKept G) (transfer_abort_slot slot)
  unfolding transfer_abort_slot
  abort-ViewKept slot = search (view_rules, unlink-ViewKept, reset-ViewKept) depth 30

  slot_timeout-ViewKept :
      (os : Os) (slot : Slot) (now_ms : ℕ)
      → Keeps (ViewKept G) (transfer_check_timeout os slot now_ms)
  unfolding transfer_check_timeout
  slot_timeout-ViewKept os slot now_ms = search (view_rules, abort-ViewKept) depth 30

  timed_out-ViewKept : (reason : KillReason) → Keeps (ViewKept G) (timed_out reason)
  unfolding timed_out
  timed_out-ViewKept reason = search view_rules depth 30

  check_timeouts-ViewKept : (now_ms : ℕ) → Keeps (ViewKept G) (proc_check_timeouts now_ms)
  unfolding proc_check_timeouts
  check_timeouts-ViewKept now_ms = search (view_rules, timed_out-ViewKept) depth 30

  ping-ViewKept : (os : Os) → Keeps (ViewKept G) (send_ping os)
  unfolding send_ping
  ping-ViewKept os = search view_rules depth 30

  pub heartbeat-ViewKept : (os : Os) → Keeps (ViewKept G) (heartbeat_cb os)
  unfolding heartbeat_cb
  heartbeat-ViewKept os =
      search (view_rules, ping-ViewKept, slot_timeout-ViewKept, check_timeouts-ViewKept) depth 40
