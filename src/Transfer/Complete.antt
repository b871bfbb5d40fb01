-- ===== src/Transfer/Complete.antt =====
-- What the success of a chunk, and of the end of an upload, says of the file.
use reactos_luagent.Base.{
  ℕ, ◌+◌, ◌≤◌, ◌≡◌, true, false, ◌∷◌, ◌++◌, Bytes, if◌then◌else◌, length, arith, is_neg,
}
use reactos_luagent.Machine.{
  fs_unlink, fs_close, Transfer, Trace, Os, State, success, ◌>>=◌, util_now_ms,
}
use reactos_luagent.Invariant.{stored}
use reactos_luagent.Transfer.Stored.{IsStored, StoresBelowLimit, write_at-end, taken_of-all}
use reactos_luagent.Transfer.Upload.{
  put_chunk_write, transfer_handle_put_chunk, transfer_handle_put_end, transfer_finalize_rename,
  put_end_failed, put_end_reply, text_of,
}
use reactos_luagent.Transfer.{reset_transfer, transfer_reset, put_transfer}

-- If an upload is active, its file holds as many bytes as its offset says, a write that takes all
-- its bytes ends below 2 ^ 63, and `transfer_handle_put_chunk` succeeds, then the file holds what
-- it held with the payload behind it, the offset counts it, and it is within the declared size.
pub put_chunk_appends :
    (os : Os) (req_id : ℕ) (payload : Bytes) (s : State)
    → StoresBelowLimit os
    → IsStored s.session.upload.active s.session.upload.offset s.session.upload.total_size
        (stored os s.trace)
    → (transfer_handle_put_chunk os req_id payload s).0 ≡ success
    → (stored os (transfer_handle_put_chunk os req_id payload s).1.trace
        ≡ stored os s.trace ++ payload)
      × ((transfer_handle_put_chunk os req_id payload s).1.session.upload.offset
          ≡ s.session.upload.offset + length payload)
      × (s.session.upload.offset + length payload ≤ s.session.upload.total_size)
unfolding transfer_handle_put_chunk put_chunk_write util_now_ms ◌>>=◌
put_chunk_appends os req_id payload s limit st e = ground (
  arith,
  limit.below s.trace s.session.upload.file payload s.session.upload.offset,
  taken_of-all (os.write_result s.trace s.session.upload.file payload s.session.upload.offset)
      payload,
  write_at-end (stored os s.trace) payload,
)

-- The calls before the rename, newest first: the file is closed, and an old file of that name is
-- deleted if the client asked for it.
abbrev pub before_rename : Transfer → Trace → Trace
before_rename u t =
    if u.overwrite then fs_unlink (text_of u.path) ∷ fs_close u.file ∷ t else fs_close u.file ∷ t

-- If `transfer_handle_put_end` succeeds, then the upload was active under this request id and its
-- offset was its declared size, the close of its file and the rename to its path after it gave no
-- error, and no upload is left.
pub put_end_complete :
    (os : Os) (req_id : ℕ) (s : State)
    → (transfer_handle_put_end os req_id s).0 ≡ success
    → (s.session.upload.active ≡ true)
      × (s.session.upload.req_id ≡ req_id)
      × (s.session.upload.offset ≡ s.session.upload.total_size)
      × (is_neg (os.close_result s.trace s.session.upload.file) ≡ false)
      × (is_neg (
            os.rename_result
              (before_rename s.session.upload s.trace)
              (text_of s.session.upload.tmp_path)
              (text_of s.session.upload.path))
          ≡ false)
      × ((transfer_handle_put_end os req_id s).1.session.upload ≡ reset_transfer)
unfolding transfer_handle_put_end transfer_finalize_rename put_end_failed put_end_reply
    transfer_reset put_transfer ◌>>=◌
put_end_complete os req_id s e = ground arith
