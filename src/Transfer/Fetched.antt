-- ===== src/Transfer/Fetched.antt =====
-- `transfer_handle_get_begin` of src/transfer.c from the request on: a file is served whole.
use reactos_luagent.Base.{
  ℕ, ◌<◌, ◌^◌, ◌≡◌, refl, ap, ◌∙◌, Bytes, codes, length, some, inl, inr, Option-cases, arith, ℤ,
  true, ◌+◌, ◌∷◌,
}
use reactos_luagent.Kv.{kv_copy, kv_u64_default}
use reactos_luagent.Machine.{
  Os, State, Trace, Action, success, rdonly, fs_open, fs_fstat, mode_download, ◌>>=◌, ◌>>◌, call_,
  bytes_block, util_now_ms, allocate,
}
use reactos_luagent.Machine.Keeps.{if-action}
use reactos_luagent.Diag.{transfer_start, diag_count, count_with}
use reactos_luagent.Session.{read_chunk}
use reactos_luagent.Transfer.Download.{
  get_send, get_open, set_download, transfer_handle_get_begin, chunk_size_or_default,
}
use reactos_luagent.Transfer.Bounded.{ReadsAtMost}
use reactos_luagent.Transfer.Sends.{ReadsFile, written}
use reactos_luagent.Transfer.Upload.{text_of}
use reactos_luagent.Transfer.Served.{Serves-from, IsBegun, Serves, get_send-Serves}

-- Files that are opened hold `content`, and their status tells its length.
pub record HoldsFile (os : Os) (content : Bytes) : Type 0 where
  pub reads : (fd : ℤ) → ReadsFile os fd content
  pub status : (t : Trace) (fd : ℤ) → os.st_size t fd ≡ length content

module _ (os : Os) (req_id : ℕ) where
  -- What happens between the open of the file and the reply, where it goes well.
  opening : Bytes → ℤ → ℕ → Action Unit
  unfolding get_open
  opening path fd size = do
    call_ (fs_open path rdonly)
    set_download (λ t. record t { file = fd })
    call_ (fs_fstat fd)
    set_download (λ t. record t {
      active = true;
      mode = mode_download;
      req_id = req_id;
      total_size = size;
      offset = 0;
    })
    now ← util_now_ms os
    set_download (λ t. record t { last_progress_ms = now })
    diag_count transfer_start

  abbrev fd_of : Bytes → State → ℤ
  fd_of path s = os.open_result s.trace path rdonly

  abbrev size_of : Bytes → State → ℕ
  size_of path s = os.st_size (fs_open path rdonly ∷ s.trace) (fd_of path s)

  open_stage :
      (path : Bytes) (s : State)
      → (get_open os req_id path s).0 ≡ success
      → get_open os req_id path s
        ≡ get_send os req_id (opening path (fd_of path s) (size_of path s) s).1
  unfolding get_open opening util_now_ms count_with ◌>>=◌
  open_stage path s e = grind (arith, if-action)

  opening-IsBegun :
      (content path : Bytes) (fd : ℤ) (s : State)
      → HoldsFile os content
      → s.session.download.path ≡ some path
      → IsBegun os req_id path content (opening path fd (length content) s).1
  unfolding opening util_now_ms count_with ◌>>=◌
  opening-IsBegun content path fd s holds named = record {
    named = ap text_of named;
    at_start = refl;
    sized = refl;
    opened = holds.reads fd;
  }

  opening_writes :
      (path : Bytes) (fd : ℤ) (n : ℕ) (s : State)
      → written (opening path fd n s).1.trace ≡ written s.trace
  unfolding opening util_now_ms count_with ◌>>=◌
  opening_writes path fd n s = refl

  -- What happens before.
  request : Bytes → Bytes → Action Unit
  request payload path = do
    have_path ← allocate os (bytes_block (length path + 1))
    set_download (λ t. record t { path = some path })
    let chunk_size = kv_u64_default payload (codes "chunk_size") read_chunk
    set_download (λ t. record t { chunk_size = chunk_size_or_default chunk_size })

  request_stage :
      (payload : Bytes) (s : State)
      → (transfer_handle_get_begin os req_id payload s).0 ≡ success
      → (path : Bytes) × (kv_copy 512 payload (codes "path") ≡ some path)
        × (transfer_handle_get_begin os req_id payload s
            ≡ get_open os req_id path (request payload path s).1)
  unfolding transfer_handle_get_begin request ◌>>=◌
  request_stage payload s e = elim (Option-cases (kv_copy 512 payload (codes "path"))) [
    | inl no_path ↦ absurd (grind (arith, if-action))
    | inr (path, found) ↦ (path, found, grind (arith, if-action))
  ]

  request_names :
      (payload path : Bytes) (s : State)
      → (request payload path s).1.session.download.path ≡ some path
  unfolding request ◌>>=◌
  request_names payload path s = refl

  request_writes :
      (payload path : Bytes) (s : State)
      → written (request payload path s).1.trace ≡ written s.trace
  unfolding request ◌>>=◌
  request_writes payload path s = refl

  pub get_begin-Serves :
      (payload content : Bytes) (s : State)
      → HoldsFile os content
      → ReadsAtMost os
      → length content < 2 ^ 64
      → (transfer_handle_get_begin os req_id payload s).0 ≡ success
      → (path : Bytes) × (kv_copy 512 payload (codes "path") ≡ some path)
        × Serves os req_id path content s (transfer_handle_get_begin os req_id payload s)
  get_begin-Serves payload content s holds reads u64 e =
      let (path, found, same) = request_stage payload s e in
      let s1 = (request payload path s).1 in
      let same1 = open_stage path s1 (rw same at e) in
      let size = holds.status (fs_open path rdonly ∷ s1.trace) (fd_of path s1) in
      let s2 = (opening path (fd_of path s1) (length content) s1).1 in
      let to_send =
        same ∙ same1 ∙ ap (λ n. get_send os req_id (opening path (fd_of path s1) n s1).1) size in
      let begun =
        opening-IsBegun content path (fd_of path s1) s1 holds (request_names payload path s) in
      let served = get_send-Serves os req_id path content s2 reads u64 begun (rw to_send at e) in
      let silent =
        opening_writes path (fd_of path s1) (length content) s1 ∙ request_writes payload path s in
      (path, found, Serves-from os req_id path content s s2 _ _ to_send silent served)
