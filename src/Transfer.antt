-- ===== src/Transfer.antt =====
-- src/transfer.c: uploads and downloads. The two `struct transfer_state` of a session are told
-- apart by a slot, which stands for the pointer.
pub mod Upload
pub mod Queue
pub mod Kept
pub mod Stored
pub mod Chunks
pub mod Complete
pub mod Whole
pub mod Download
pub mod Bounded
pub mod Sends
pub mod Served
pub mod Fetched
use reactos_luagent.Base.{
  ℕ, zero, suc, Bool, false, not, ◌||◌, ◌==◌, ltb, codes, if◌then◌else◌, Bytes, Option, none, some,
  ℤ, pos, negsuc, is_neg,
}
use reactos_luagent.Libc.{sub_u64}
use reactos_luagent.Machine.{
  Event, fs_close, fs_unlink, Os, TransferMode, mode_none, Transfer, Session, State, Action, ◌>>=◌,
  ◌>>◌, pure, get_session, modify, call, call_, when,
}
use reactos_luagent.Diag.{transfer_abort, diag_count}
use reactos_luagent.Session.{read_chunk, transfer_idle_ms, session_send_error, reject}

pub data Slot : Type 0 where
  upload_slot download_slot : Slot

unfoldable pub transfer_at : Slot → Session → Transfer
transfer_at upload_slot s = s.upload
transfer_at download_slot s = s.download

unfoldable pub put_transfer : Slot → Transfer → Session → Session
put_transfer upload_slot t s = record s { upload = t }
put_transfer download_slot t s = record s { download = t }

-- The state after `transfer_init`, and after `transfer_reset`, which frees the two paths.
abbrev pub reset_transfer : Transfer
reset_transfer = record {
  active = false;
  overwrite = false;
  mode = mode_none;
  req_id = 0;
  file = negsuc 0;
  total_size = 0;
  offset = 0;
  last_progress_ms = 0;
  chunk_size = read_chunk;
  path = none;
  tmp_path = none;
}

unfoldable pub transfer_reset : Slot → Action Unit
transfer_reset slot = modify (put_transfer slot reset_transfer)

-- `uv_fs_unlink` of a path that may be NULL.
unfoldable pub unlink_if_set : Option Bytes → Action Unit
unlink_if_set none = pure tt
unlink_if_set (some p) = call_ (fs_unlink p)

unfoldable pub transfer_abort_slot : Slot → Action Unit
transfer_abort_slot slot = do
  session ← get_session
  let t = transfer_at slot session
  when (not (is_neg t.file)) (call_ (fs_close t.file))
  unlink_if_set t.tmp_path
  transfer_reset slot

module _ (os : Os) where
  unfoldable pub transfer_check_timeout : Slot → ℕ → Action Unit
  transfer_check_timeout slot now_ms = do
    session ← get_session
    let t = transfer_at slot session
    if not t.active || t.last_progress_ms == 0
        then pure tt
        else if ltb (sub_u64 now_ms t.last_progress_ms) transfer_idle_ms
        then pure tt
        else do
          diag_count transfer_abort
          session_send_error os t.req_id (codes "timeout") (codes "transfer stalled")
          transfer_abort_slot slot
