-- ===== src/Transfer/Whole.antt =====
-- A whole upload: its chunks, one after the other, and its end.
use reactos_luagent.Base.{
  ℕ, ap, ◌∙◌, sym, ◌+◌, ◌^◌, ◌<◌, ◌≡◌, refl, Bool, true, false, List, [], ◌∷◌, ◌++◌, append_assoc,
  append-nil, Bytes, length, length-append, arith,
}
use reactos_luagent.Machine.{Os, State, Action, success, on_success, ◌>>=◌, pure, util_now_ms}
use reactos_luagent.Invariant.{stored}
use reactos_luagent.Transfer.Stored.{IsStored, StoresBelowLimit}
use reactos_luagent.Transfer.Upload.{
  put_chunk_write, transfer_handle_put_chunk, transfer_handle_put_end,
}
use reactos_luagent.Transfer.Complete.{put_chunk_appends, put_end_complete}

-- `true` where every chunk succeeded.
unfoldable pub put_chunks : Os → ℕ → List Bytes → Action Bool
put_chunks os req_id [] = pure true
put_chunks os req_id (c ∷ cs) = do
  rc ← transfer_handle_put_chunk os req_id c
  on_success rc (pure false) (λ s. put_chunks os req_id cs s)

abbrev pub joined : List Bytes → Bytes
joined [] = []
joined (c ∷ cs) = c ++ joined cs

module _ (os : Os) (req_id : ℕ) (limit : StoresBelowLimit os) where
  -- An upload in its invariant.
  abbrev Is : State → Type 0
  Is s =
      IsStored s.session.upload.active s.session.upload.offset s.session.upload.total_size
        (stored os s.trace)

  chunk_same :
      (c : Bytes) (s : State)
      → (transfer_handle_put_chunk os req_id c s).0 ≡ success
      → ((transfer_handle_put_chunk os req_id c s).1.session.upload.active
          ≡ s.session.upload.active)
        × ((transfer_handle_put_chunk os req_id c s).1.session.upload.total_size
            ≡ s.session.upload.total_size)
        × (s.session.upload.offset + length c < 2 ^ 63)
  unfolding transfer_handle_put_chunk put_chunk_write util_now_ms ◌>>=◌
  chunk_same c s e =
      ground (arith, limit.below s.trace s.session.upload.file c s.session.upload.offset)

  chunk-Is :
      (c : Bytes) (s : State)
      → Is s
      → (transfer_handle_put_chunk os req_id c s).0 ≡ success
      → Is (transfer_handle_put_chunk os req_id c s).1
  chunk-Is c s st e =
      let (content, offset, room) = put_chunk_appends os req_id c s limit st e in
      let (active, total, below) = chunk_same c s e in
      record {
        is_active = active ∙ st.is_active;
        all_stored =
            omega (
              arith,
              ap length content,
              length-append (stored os s.trace) c,
              offset,
              st.all_stored,
            );
        in_size = omega (arith, offset, total, room);
        in_file = omega (arith, offset, below);
      }

  rest_of :
      (c : Bytes) (cs : List Bytes) (s : State)
      → (put_chunks os req_id (c ∷ cs) s).0 ≡ true
      → ((transfer_handle_put_chunk os req_id c s).0 ≡ success)
        × (put_chunks os req_id (c ∷ cs) s
            ≡ put_chunks os req_id cs (transfer_handle_put_chunk os req_id c s).1)
  unfolding put_chunks ◌>>=◌
  rest_of c cs s e = ground arith

  chunks_store :
      (cs : List Bytes) (s : State)
      → Is s
      → (put_chunks os req_id cs s).0 ≡ true
      → Is (put_chunks os req_id cs s).1
        × (stored os (put_chunks os req_id cs s).1.trace ≡ stored os s.trace ++ joined cs)
        × ((put_chunks os req_id cs s).1.session.upload.total_size ≡ s.session.upload.total_size)
  chunks_store [] s st e =
      unfold put_chunks pure in (st, sym (append-nil (stored os s.trace)), refl)
  chunks_store (c ∷ cs) s st e =
      let (ok, same) = rest_of c cs s e in
      let (st', content, total) = chunks_store cs _ (chunk-Is c s st ok) (rw same at e) in
      let (appended, offset, room) = put_chunk_appends os req_id c s limit st ok in
      rw same (
        st',
        content
            ∙ ap (λ b. b ++ joined cs) appended
            ∙ append_assoc (stored os s.trace) c (joined cs),
        total ∙ (chunk_same c s ok).1,
      )

  pub upload_whole :
      (cs : List Bytes) (s : State)
      → IsStored s.session.upload.active s.session.upload.offset s.session.upload.total_size
          (stored os s.trace)
      → (put_chunks os req_id cs s).0 ≡ true
      → (transfer_handle_put_end os req_id (put_chunks os req_id cs s).1).0 ≡ success
      → (stored os (put_chunks os req_id cs s).1.trace ≡ stored os s.trace ++ joined cs)
        × (length (stored os s.trace ++ joined cs) ≡ s.session.upload.total_size)
  upload_whole cs s st e ended =
      let (st', content, total) = chunks_store cs s st e in
      let complete = (put_end_complete os req_id _ ended).2 in
      (content, sym (ap length content) ∙ st'.all_stored ∙ complete ∙ total)
