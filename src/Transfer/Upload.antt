-- ===== src/Transfer/Upload.antt =====
-- PUT_BEGIN, PUT_CHUNK and PUT_END.
use reactos_luagent.Base.{
  ℕ, ◌+◌, Bool, true, false, not, ◌&&◌, ◌||◌, ◌==◌, ltb, if◌then◌else◌, Bytes, codes, ◌++◌, length,
  Option, none, some, ℤ, negsuc, is_neg, pos_part,
}
use reactos_luagent.Libc.{add_u64, decimal}
use reactos_luagent.Kv.{kv_copy, kv_u64, kv_u64_default, kv_bool_default}
use reactos_luagent.Frame.{ack}
use reactos_luagent.Machine.{
  bytes_block, fs_open, fs_write, fs_close, fs_unlink, fs_rename, creat_trunc_wronly, Os,
  TransferMode, mode_upload, Transfer, Action, Rc, success, failure, ◌>>=◌, ◌>>◌, on_some, pure,
  get_session, modify, call, call_, when, allocate, util_now_ms,
}
use reactos_luagent.Diag.{transfer_start, transfer_complete, transfer_abort, diag_count}
use reactos_luagent.Session.{
  read_chunk, util_snprintf, session_send_text, session_send_error, reject,
}
use reactos_luagent.Transfer.{upload_slot, transfer_reset, transfer_abort_slot}

-- The texts of the two replies, "%u" and "%llu" filled in.
unfoldable pub begin_reply : ℕ → Bytes → ℕ → Bytes
begin_reply req_id path size =
    codes "status=ok\ntransfer_id="
    ++ (decimal req_id ++ (codes "\npath=" ++ (path ++ (codes "\nsize=" ++ decimal size))))

unfoldable pub end_reply : Bytes → ℕ → Bytes
end_reply path bytes = codes "status=ok\npath=" ++ (path ++ (codes "\nbytes=" ++ decimal bytes))

-- A `char *` that is set where the code uses it.
abbrev pub text_of : Option Bytes → Bytes
text_of none = codes ""
text_of (some p) = p

abbrev pub set_upload : (Transfer → Transfer) → Action Unit
set_upload f = modify (λ s. record s { upload = f s.upload })

-- `false` for either NULL. `strdup` of a text takes its length and one.
unfoldable pub copy_paths : Os → Bytes → Bytes → Action Bool
copy_paths os path tmp_path = do
  have_path ← allocate os (bytes_block (length path + 1))
  set_upload (λ t. record t { path = if have_path then some path else none })
  have_tmp ← allocate os (bytes_block (length tmp_path + 1))
  set_upload (λ t. record t { tmp_path = if have_tmp then some tmp_path else none })
  pure (have_path && have_tmp)

abbrev pub is_upload : TransferMode → Bool
is_upload mode_upload = true
is_upload _ = false

module _ (os : Os) where
  -- From the open of the temporary file on.
  unfoldable pub put_begin_open : ℕ → Bytes → Bytes → ℕ → Action Rc
  put_begin_open req_id path tmp_path size = do
    rc ←
        call (fs_open tmp_path creat_trunc_wronly)
          (λ t. os.open_result t tmp_path creat_trunc_wronly)
    if is_neg rc
        then (do
          transfer_abort_slot upload_slot
          session_send_error os req_id (codes "io_error") (os.strerror rc)
          pure failure)
        else do
          set_upload (λ t. record t { file = rc; active = true })
          on_some (util_snprintf 256 (begin_reply req_id path size))
              (do
                reject os req_id "internal" "reply overflow"
                transfer_abort_slot upload_slot
                pure failure)
              λ reply. session_send_text os ack req_id reply

  -- With the arguments read from the payload.
  unfoldable pub put_begin_with : ℕ → Bytes → Bytes → ℕ → Action Rc
  put_begin_with req_id payload path size =
      on_some (util_snprintf 576 (path ++ codes ".part"))
        (reject os req_id "bad_payload" "path too long")
        λ tmp_path. do
          copied ← copy_paths os path tmp_path
          if not copied
              then (do transfer_abort_slot upload_slot; reject os req_id "internal" "out of memory")
              else do
                set_upload (λ t. record t {
                  overwrite = kv_bool_default payload (codes "overwrite") false;
                  mode = mode_upload;
                  req_id = req_id;
                  total_size = size;
                  offset = 0;
                })
                now ← util_now_ms os
                set_upload (λ t. record t {
                  last_progress_ms = now;
                  chunk_size = kv_u64_default payload (codes "chunk_size") read_chunk;
                })
                diag_count transfer_start
                put_begin_open req_id path tmp_path size

  unfoldable pub transfer_handle_put_begin : ℕ → Bytes → Action Rc
  transfer_handle_put_begin req_id payload = do
    session ← get_session
    if session.upload.active
        then reject os req_id "io_error" "transfer already active"
        else on_some (kv_copy 512 payload (codes "path"))
            (reject os req_id "bad_payload" "missing path or size")
            λ path.
              on_some (kv_u64 payload (codes "size"))
                (reject os req_id "bad_payload" "missing path or size")
                λ size. put_begin_with req_id payload path size

  -- From the write on.
  unfoldable pub put_chunk_write : ℕ → Bytes → Transfer → Action Rc
  put_chunk_write req_id payload t = do
    rc ← call (fs_write t.file payload t.offset) (λ h. os.write_result h t.file payload t.offset)
    if is_neg rc || not (pos_part rc == length payload)
        then (do
          reject os req_id "io_error" "write failed"
          diag_count transfer_abort
          transfer_abort_slot upload_slot
          pure failure)
        else do
          set_upload (λ t. record t { offset = add_u64 t.offset (length payload) })
          now ← util_now_ms os
          set_upload (λ t. record t { last_progress_ms = now })
          pure success

  unfoldable pub transfer_handle_put_chunk : ℕ → Bytes → Action Rc
  transfer_handle_put_chunk req_id payload = do
    session ← get_session
    let t = session.upload
    if not t.active || not (t.req_id == req_id)
        then reject os req_id "bad_payload" "no active transfer"
        else if not (is_upload t.mode)
        then reject os req_id "bad_payload" "wrong transfer mode"
        else if ltb t.total_size (add_u64 t.offset (length payload))
        then (do
          reject os req_id "bad_payload" "chunk exceeds declared size"
          diag_count transfer_abort
          transfer_abort_slot upload_slot
          pure failure)
        else put_chunk_write req_id payload t

  unfoldable pub transfer_finalize_rename : Transfer → Action ℤ
  transfer_finalize_rename t = do
    when t.overwrite (call_ (fs_unlink (text_of t.path)))
    call (fs_rename (text_of t.tmp_path) (text_of t.path))
        (λ h. os.rename_result h (text_of t.tmp_path) (text_of t.path))

  -- After a failed close or rename.
  unfoldable pub put_end_failed : ℕ → ℤ → Action Rc
  put_end_failed req_id rc = do
    session_send_error os req_id (codes "io_error") (os.strerror rc)
    transfer_abort_slot upload_slot
    pure failure

  unfoldable pub put_end_reply : ℕ → Transfer → Action Rc
  put_end_reply req_id t =
      on_some (util_snprintf 256 (end_reply (text_of t.path) t.offset))
        (do
          reject os req_id "internal" "reply overflow"
          transfer_abort_slot upload_slot
          pure failure)
        λ reply. do
          session_send_text os ack req_id reply
          diag_count transfer_complete
          transfer_reset upload_slot
          pure success

  unfoldable pub transfer_handle_put_end : ℕ → Action Rc
  transfer_handle_put_end req_id = do
    session ← get_session
    let t = session.upload
    if not t.active || not (t.req_id == req_id)
        then reject os req_id "bad_payload" "no active transfer"
        else if not (is_upload t.mode)
        then reject os req_id "bad_payload" "wrong transfer mode"
        else if not (t.offset == t.total_size)
        then (do
          reject os req_id "bad_payload" "size mismatch"
          transfer_abort_slot upload_slot
          pure failure)
        else do
          rc ← call (fs_close t.file) (λ h. os.close_result h t.file)
          set_upload (λ t. record t { file = negsuc 0 })
          if is_neg rc then put_end_failed req_id rc else do
            renamed ← transfer_finalize_rename t
            if is_neg renamed then put_end_failed req_id renamed else put_end_reply req_id t
