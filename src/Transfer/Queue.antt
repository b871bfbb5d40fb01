-- ===== src/Transfer/Queue.antt =====
-- The upload keeps the write queue within its bound, and with it all that a session does.
use reactos_luagent.Base.{ℕ, Bytes, Option, none, some, ℤ}
use reactos_luagent.Machine.{Os, Transfer, modify}
use reactos_luagent.Machine.Keeps.{Keeps}
use reactos_luagent.Invariant.{View, Kept, IsInvariant}
use reactos_luagent.Session.Queue.{
  IsQueued, Queued, queue_rules, session_send_frame-Queued, write_completed-Queued,
}
use reactos_luagent.Transfer.{
  Slot, upload_slot, download_slot, put_transfer, transfer_reset, transfer_abort_slot,
  unlink_if_set,
}
use reactos_luagent.Transfer.Upload.{
  copy_paths, put_begin_open, put_begin_with, transfer_handle_put_begin, put_chunk_write,
  transfer_handle_put_chunk, transfer_finalize_rename, put_end_failed, put_end_reply,
  transfer_handle_put_end,
}

transfer_reset-Queued : (slot : Slot) → Keeps Queued (transfer_reset slot)
unfolding transfer_reset put_transfer
transfer_reset-Queued upload_slot = search queue_rules
transfer_reset-Queued download_slot = search queue_rules

unlink_if_set-Queued : (p : Option Bytes) → Keeps Queued (unlink_if_set p)
unfolding unlink_if_set
unlink_if_set-Queued none = search queue_rules
unlink_if_set-Queued (some p) = search queue_rules

pub transfer_abort_slot-Queued : (slot : Slot) → Keeps Queued (transfer_abort_slot slot)
unfolding transfer_abort_slot
transfer_abort_slot-Queued slot =
    search (queue_rules, unlink_if_set-Queued, transfer_reset-Queued) depth 30

ruleset transfer_rules = (queue_rules, transfer_reset-Queued, transfer_abort_slot-Queued)

module _ (os : Os) (req_id : ℕ) where
  copy_paths-Queued : (path tmp_path : Bytes) → Keeps Queued (copy_paths os path tmp_path)
  unfolding copy_paths
  copy_paths-Queued path tmp_path = search transfer_rules depth 30

  put_begin_open-Queued :
      (path tmp_path : Bytes) (size : ℕ)
      → Keeps Queued (put_begin_open os req_id path tmp_path size)
  unfolding put_begin_open
  put_begin_open-Queued path tmp_path size = search transfer_rules depth 30

  put_begin_with-Queued :
      (payload path : Bytes) (size : ℕ) → Keeps Queued (put_begin_with os req_id payload path size)
  unfolding put_begin_with
  put_begin_with-Queued payload path size =
      search (transfer_rules, copy_paths-Queued, put_begin_open-Queued) depth 30

  pub put_begin-Queued :
      (payload : Bytes) → Keeps Queued (transfer_handle_put_begin os req_id payload)
  unfolding transfer_handle_put_begin
  put_begin-Queued payload = search (transfer_rules, put_begin_with-Queued) depth 30

  put_chunk_write-Queued :
      (payload : Bytes) (t : Transfer) → Keeps Queued (put_chunk_write os req_id payload t)
  unfolding put_chunk_write
  put_chunk_write-Queued payload t = search transfer_rules depth 40

  pub put_chunk-Queued :
      (payload : Bytes) → Keeps Queued (transfer_handle_put_chunk os req_id payload)
  unfolding transfer_handle_put_chunk
  put_chunk-Queued payload = search (transfer_rules, put_chunk_write-Queued) depth 40

  finalize_rename-Queued : (t : Transfer) → Keeps Queued (transfer_finalize_rename os t)
  unfolding transfer_finalize_rename
  finalize_rename-Queued t = search transfer_rules depth 30

  put_end_failed-Queued : (rc : ℤ) → Keeps Queued (put_end_failed os req_id rc)
  unfolding put_end_failed
  put_end_failed-Queued rc = search transfer_rules depth 30

  put_end_reply-Queued : (t : Transfer) → Keeps Queued (put_end_reply os req_id t)
  unfolding put_end_reply
  put_end_reply-Queued t = search transfer_rules depth 30

  pub put_end-Queued : Keeps Queued (transfer_handle_put_end os req_id)
  unfolding transfer_handle_put_end
  put_end-Queued =
      search (transfer_rules, finalize_rename-Queued, put_end_failed-Queued, put_end_reply-Queued)
        depth 40

-- The bound of the write queue, as an invariant of a session.
abbrev pub QueuedView : View → Type 0
QueuedView v = IsQueued v.pending v.in_flight

hears-Queued : (now : ℕ) → Keeps (Kept QueuedView) (modify (λ s. record s { last_rx_ms = now }))
unfolding modify
hears-Queued now = record { at = λ s h. h }

pub QueuedView-IsInvariant : (os : Os) → IsInvariant os QueuedView
QueuedView-IsInvariant os = record {
  sends = session_send_frame-Queued;
  aborts = transfer_abort_slot-Queued upload_slot;
  begins = put_begin-Queued os;
  chunks = put_chunk-Queued os;
  ends = put_end-Queued os;
  hears = hears-Queued;
  completes = write_completed-Queued;
}
