-- ===== src/Transfer/Download.antt =====
-- GET_BEGIN: the whole download, in one call.
use reactos_luagent.Base.{
  ℕ, zero, suc, ◌+◌, ◌-◌, true, not, ◌||◌, ◌==◌, ltb, if◌then◌else◌, [], ◌∷◌, Bytes, codes, length,
  Option, none, some, negsuc, is_neg,
}
use reactos_luagent.Libc.{add_u64}
use reactos_luagent.Kv.{kv_copy, kv_u64_default}
use reactos_luagent.Frame.{ack, get_chunk, get_end, max_frame_payload}
use reactos_luagent.Machine.{
  bytes_block, fs_open, fs_fstat, fs_read, fs_close, rdonly, Os, mode_download, Transfer, Action,
  Rc, success, failure, ◌>>=◌, ◌>>◌, on_some, on_success, pure, get_session, modify, call, call_,
  allocate, util_now_ms,
}
use reactos_luagent.Diag.{transfer_start, transfer_complete, transfer_abort, diag_count}
use reactos_luagent.Session.{
  read_chunk, util_snprintf, session_send_frame, session_send_text, session_send_error, reject,
}
use reactos_luagent.Transfer.{download_slot, transfer_reset, transfer_abort_slot}
use reactos_luagent.Transfer.Upload.{begin_reply, text_of}

abbrev pub set_download : (Transfer → Transfer) → Action Unit
set_download f = modify (λ s. record s { download = f s.download })

-- How a round of the loop, and the loop, ends: `read_error` and `send_error` are its two returns.
pub data LoopEnd : Type 0 where
  finished read_error send_error out_of_fuel : LoopEnd

-- A chunk size that is 0 or larger than a frame's payload is not used.
abbrev pub chunk_size_or_default : ℕ → ℕ
chunk_size_or_default n = if n == 0 || ltb max_frame_payload n then read_chunk else n

-- `rc > 0`
abbrev pub positive : Option Bytes → Option Bytes
positive none = none
positive (some []) = none
positive (some (b ∷ bs)) = some (b ∷ bs)

module _ (os : Os) where
  -- The end of a round, with what was read; `more` is what comes after the round.
  unfoldable pub get_sent : ℕ → Action LoopEnd → Option Bytes → Action LoopEnd
  get_sent req_id more none = pure read_error
  get_sent req_id more (some chunk) = do
    sent ← session_send_frame os get_chunk req_id chunk
    on_success sent (pure send_error) (do
      set_download (λ t. record t { offset = add_u64 t.offset (length chunk) })
      now ← util_now_ms os
      set_download (λ t. record t { last_progress_ms = now })
      more)

  -- One round of the loop `while (offset < total_size)`.
  unfoldable pub get_round : ℕ → Action LoopEnd → Action LoopEnd
  get_round req_id more = do
    session ← get_session
    let t = session.download
    let left = t.total_size - t.offset
    let to_read = if ltb left t.chunk_size then left else t.chunk_size
    if not (ltb t.offset t.total_size) then pure finished else do
      got ← call (fs_read t.file to_read t.offset) (λ h. os.read_result h t.file to_read t.offset)
      get_sent req_id more (positive got)

  -- A round that goes on reads a byte or more, so that `total_size` rounds and one more test are
  -- fuel enough.
  unfoldable pub get_loop : ℕ → ℕ → Action LoopEnd
  get_loop zero req_id = pure out_of_fuel
  get_loop (suc fuel) req_id = get_round req_id (λ s. get_loop fuel req_id s)

  -- After the loop.
  unfoldable pub get_finish : ℕ → LoopEnd → Action Rc
  get_finish req_id read_error = do
    diag_count transfer_abort
    transfer_abort_slot download_slot
    reject os req_id "io_error" "read failed"
  get_finish req_id send_error = do
    diag_count transfer_abort
    transfer_abort_slot download_slot
    pure failure
  get_finish req_id finished = do
    session ← get_session
    call_ (fs_close session.download.file)
    set_download (λ t. record t { file = negsuc 0 })
    session_send_text os get_end req_id (codes "status=ok")
    diag_count transfer_complete
    transfer_reset download_slot
    pure success
  get_finish req_id out_of_fuel = pure failure

  -- From the reply on.
  unfoldable pub get_send : ℕ → Action Rc
  get_send req_id = do
    session ← get_session
    let t = session.download
    on_some (util_snprintf 256 (begin_reply req_id (text_of t.path) t.total_size))
        (do transfer_abort_slot download_slot; reject os req_id "internal" "reply overflow")
        λ reply. do
          sent ← session_send_text os ack req_id reply
          on_success sent (do transfer_abort_slot download_slot; pure failure)
              (do
                have_chunk ← allocate os (bytes_block t.chunk_size)
                if not have_chunk
                    then (do
                      transfer_abort_slot download_slot
                      reject os req_id "internal" "out of memory")
                    else do ended ← get_loop (t.total_size + 1) req_id; get_finish req_id ended)

  -- From the open of the file on.
  unfoldable pub get_open : ℕ → Bytes → Action Rc
  get_open req_id path = do
    rc ← call (fs_open path rdonly) (λ t. os.open_result t path rdonly)
    if is_neg rc
        then (do
          transfer_abort_slot download_slot
          session_send_error os req_id (codes "not_found") (os.strerror rc)
          pure failure)
        else do
          set_download (λ t. record t { file = rc })
          (stat_rc, size) ← call (fs_fstat rc) (λ t. (os.fstat_result t rc, os.st_size t rc))
          if is_neg stat_rc
              then (do
                transfer_abort_slot download_slot
                session_send_error os req_id (codes "io_error") (os.strerror stat_rc)
                pure failure)
              else do
                set_download (λ t. record t {
                  active = true;
                  mode = mode_download;
                  req_id = req_id;
                  total_size = size;
                  offset = 0;
                })
                now ← util_now_ms os
                set_download (λ t. record t { last_progress_ms = now })
                diag_count transfer_start
                get_send req_id

  unfoldable pub transfer_handle_get_begin : ℕ → Bytes → Action Rc
  transfer_handle_get_begin req_id payload = do
    session ← get_session
    if session.download.active
        then reject os req_id "io_error" "download already active"
        else on_some (kv_copy 512 payload (codes "path"))
            (reject os req_id "bad_payload" "missing path")
            λ path. do
              have_path ← allocate os (bytes_block (length path + 1))
              set_download (λ t. record t { path = if have_path then some path else none })
              if not have_path then reject os req_id "internal" "out of memory" else do
                let chunk_size = kv_u64_default payload (codes "chunk_size") read_chunk
                set_download (λ t. record t { chunk_size = chunk_size_or_default chunk_size })
                get_open req_id path
