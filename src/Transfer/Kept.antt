-- ===== src/Transfer/Kept.antt =====
-- Timeouts and downloads keep an invariant that sending frames and aborting the upload keep.
use reactos_luagent.Base.{ℕ, zero, suc, Bytes, Option, none, some}
use reactos_luagent.Frame.{FrameType}
use reactos_luagent.Machine.{Os, Action}
use reactos_luagent.Machine.Keeps.{Keeps}
use reactos_luagent.Session.{session_send_frame}
use reactos_luagent.Invariant.{View, Kept, kept_rules}
use reactos_luagent.Transfer.{
  Slot, upload_slot, download_slot, put_transfer, transfer_reset, transfer_abort_slot,
  transfer_check_timeout, unlink_if_set,
}
use reactos_luagent.Transfer.Download.{
  LoopEnd, finished, read_error, send_error, out_of_fuel, get_sent, get_round, get_loop, get_finish,
  get_send, get_open, transfer_handle_get_begin,
}

module _ (F : View → Type 0) where
  pub unlink_if_set-Kept : (p : Option Bytes) → Keeps (Kept F) (unlink_if_set p)
  unfolding unlink_if_set
  unlink_if_set-Kept none = search kept_rules
  unlink_if_set-Kept (some p) = search kept_rules

  reset_download-Kept : Keeps (Kept F) (transfer_reset download_slot)
  unfolding transfer_reset put_transfer
  reset_download-Kept = search kept_rules

  abort_download-Kept : Keeps (Kept F) (transfer_abort_slot download_slot)
  unfolding transfer_abort_slot
  abort_download-Kept = search (kept_rules, unlink_if_set-Kept, reset_download-Kept) depth 30

module _ (F : View → Type 0)
    (sends : (os : Os) (type : FrameType) (req_id : ℕ) (payload : Bytes)
      → Keeps (Kept F) (session_send_frame os type req_id payload)) where
  slot_timeout-Kept :
      (os : Os) (slot : Slot) (now_ms : ℕ)
      → Keeps (Kept F) (transfer_abort_slot slot)
      → Keeps (Kept F) (transfer_check_timeout os slot now_ms)
  unfolding transfer_check_timeout
  slot_timeout-Kept os slot now_ms k = search kept_rules depth 30

  pub check_timeout-Kept :
      (aborts : Keeps (Kept F) (transfer_abort_slot upload_slot)) (os : Os) (slot : Slot)
      (now_ms : ℕ)
      → Keeps (Kept F) (transfer_check_timeout os slot now_ms)
  check_timeout-Kept aborts os upload_slot now_ms = slot_timeout-Kept os upload_slot now_ms aborts
  check_timeout-Kept aborts os download_slot now_ms =
      slot_timeout-Kept os download_slot now_ms (abort_download-Kept F)

module _ (F : View → Type 0)
    (sends : (os : Os) (type : FrameType) (req_id : ℕ) (payload : Bytes)
      → Keeps (Kept F) (session_send_frame os type req_id payload))
    (os : Os) (req_id : ℕ) where
  get_sent-Kept :
      (more : Action LoopEnd) (got : Option Bytes)
      → Keeps (Kept F) more
      → Keeps (Kept F) (get_sent os req_id more got)
  unfolding get_sent
  get_sent-Kept more none k = search kept_rules
  get_sent-Kept more (some chunk) k = search (kept_rules, sends) depth 40

  get_round-Kept :
      (more : Action LoopEnd) → Keeps (Kept F) more → Keeps (Kept F) (get_round os req_id more)
  unfolding get_round
  get_round-Kept more k = search (kept_rules, get_sent-Kept) depth 40

  get_loop-Kept : (fuel : ℕ) → Keeps (Kept F) (get_loop os fuel req_id)
  unfolding get_loop
  get_loop-Kept zero = search kept_rules
  get_loop-Kept (suc fuel) = get_round-Kept _ (get_loop-Kept fuel)

  get_finish-Kept : (ended : LoopEnd) → Keeps (Kept F) (get_finish os req_id ended)
  unfolding get_finish
  get_finish-Kept finished = search (kept_rules, reset_download-Kept) depth 30
  get_finish-Kept read_error = search (kept_rules, abort_download-Kept) depth 30
  get_finish-Kept send_error = search (kept_rules, abort_download-Kept) depth 30
  get_finish-Kept out_of_fuel = search kept_rules depth 30

  get_send-Kept : Keeps (Kept F) (get_send os req_id)
  unfolding get_send
  get_send-Kept = search (kept_rules, abort_download-Kept, get_loop-Kept, get_finish-Kept) depth 40

  get_open-Kept : (path : Bytes) → Keeps (Kept F) (get_open os req_id path)
  unfolding get_open
  get_open-Kept path = search (kept_rules, abort_download-Kept, get_send-Kept) depth 40

  pub get_begin-Kept :
      (payload : Bytes) → Keeps (Kept F) (transfer_handle_get_begin os req_id payload)
  unfolding transfer_handle_get_begin
  get_begin-Kept payload = search (kept_rules, get_open-Kept) depth 40
