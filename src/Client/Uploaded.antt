-- ===== src/Client/Uploaded.antt =====
-- A whole run of tests/host_client/client.c: the frames of the upload, and what is closed.
use reactos_luagent.Base.{
  ℕ, ◌<◌, ◌≤◌, ◌≡◌, refl, sym, ap, ◌∙◌, List, [], ◌∷◌, ◌++◌, Bytes, length, take, drop,
  take-append-drop, length-take, drop-all, Bool, true, false, ltb, ltb→lt, Bool-cases, inl, inr,
  append-nil, arith, All, subst, if◌then◌else◌,
}
use reactos_luagent.Client.{
  Wire, Network, header, frame_put_begin, frame_put_chunk, frame_put_end, begin_payload, begin_text,
  send_frame, put_chunks, upload, await_reply, when, fail, req_id, ◌>>=◌, bind,
}
use reactos_luagent.Client.Sent.{
  Writes, Writes-then, check-Writes, await_reply-Writes, send_frame-Writes,
}
use reactos_luagent.Client.Wires.{Sent, stream, stream-append, stream-Decodes, Decodes, IsSendable}

-- The reads of a file: 4096 bytes each as long as there are so many.
abbrev pub IsRead : Bytes → List Bytes → Type 0
IsRead content [] = content ≡ []
IsRead content (got ∷ reads) = (got ≡ take 4096 content) × IsRead (drop 4096 content) reads

abbrev pub chunk : Bytes → Sent
chunk got = (frame_put_chunk, got)

abbrev pub joined : List Bytes → Bytes
joined [] = []
joined (c ∷ cs) = c ++ joined cs

abbrev pub chunks_of : List Bytes → List Sent
chunks_of [] = []
chunks_of (c ∷ cs) = chunk c ∷ chunks_of cs

abbrev pub IsChunk : Bytes → Type 0
IsChunk c = (0 < length c) × (length c ≤ 4096)

module _ (net : Network) (ferror : Bool) where
  -- The chunks whose frames the loop writes.
  record Chunked (content : Bytes) (reads : List Bytes) : Type 0 where
    chunks : List Bytes
    whole : joined chunks ≡ content
    each : All IsChunk chunks
    written : (w : Wire) → Writes (stream (chunks_of chunks)) w (put_chunks net ferror reads w)

  no_chunks :
      (content : Bytes) (reads : List Bytes)
      → content ≡ []
      → ((w : Wire) → put_chunks net ferror reads w ≡ when ferror fail w)
      → Chunked content reads
  no_chunks content reads nothing ended = record {
    chunks = [];
    whole = sym nothing;
    each = tt;
    written = λ w. subst (λ r. Writes [] w r) (sym (ended w)) (check-Writes ferror w);
  }

  -- A read of less than 4096 bytes is the last, one of 4096 is not.
  short_read : (content : Bytes) → length (take 4096 content) < 4096 → take 4096 content ≡ content
  short_read content short =
      sym (append-nil (take 4096 content))
      ∙ ap (λ x. take 4096 content ++ x)
          (sym (drop-all 4096 content (omega (arith, length-take 4096 content, short))))
      ∙ take-append-drop 4096 content

  round :
      (c : ℕ) (cs : Bytes) (reads : List Bytes)
      → put_chunks net ferror ((c ∷ cs) ∷ reads) ≡ (
          send_frame net frame_put_chunk req_id (c ∷ cs) >>= λ _.
          if ltb (length (c ∷ cs)) 4096 then when ferror fail else put_chunks net ferror reads)
  unfolding put_chunks
  round c cs reads = rw some_bytes refl
    where
      some_bytes : ltb 0 (length (c ∷ cs)) ≡ true
      some_bytes = ground arith

  last_chunk :
      (content : Bytes) (c : ℕ) (cs : Bytes) (reads : List Bytes)
      → c ∷ cs ≡ content
      → ltb (length (c ∷ cs)) 4096 ≡ true
      → Chunked content ((c ∷ cs) ∷ reads)
  last_chunk content c cs reads all short = record {
    chunks = (c ∷ cs) ∷ [];
    whole = append-nil (c ∷ cs) ∙ all;
    each = ((omega arith, omega (arith, ltb→lt (length (c ∷ cs)) 4096 short)), tt);
    written = λ w.
        rw (round c cs reads, short)
          (Writes-then (header frame_put_chunk req_id (length (c ∷ cs)) ++ (c ∷ cs)) [] w
            (send_frame net frame_put_chunk req_id (c ∷ cs)) _
            (send_frame-Writes net frame_put_chunk req_id (c ∷ cs) w)
            (λ a w1. check-Writes ferror w1));
  }

  more_chunks :
      (content : Bytes) (c : ℕ) (cs : Bytes) (reads : List Bytes)
      → c ∷ cs ≡ take 4096 content
      → ltb (length (c ∷ cs)) 4096 ≡ false
      → Chunked (drop 4096 content) reads
      → Chunked content ((c ∷ cs) ∷ reads)
  more_chunks content c cs reads first full rest = record {
    chunks = (c ∷ cs) ∷ rest.chunks;
    whole =
        ap (λ x. x ++ joined rest.chunks) first
        ∙ ap (λ x. take 4096 content ++ x) rest.whole
        ∙ take-append-drop 4096 content;
    each = (
      (omega arith, omega (arith, ap (λ x. length x) first, length-take 4096 content)),
      rest.each,
    );
    written = λ w.
        rw (round c cs reads, full)
          (Writes-then (header frame_put_chunk req_id (length (c ∷ cs)) ++ (c ∷ cs))
            (stream (chunks_of rest.chunks)) w (send_frame net frame_put_chunk req_id (c ∷ cs)) _
            (send_frame-Writes net frame_put_chunk req_id (c ∷ cs) w) (λ a w1. rest.written w1));
  }

  nothing_read : (content : Bytes) → [] ≡ take 4096 content → content ≡ []
  nothing_read [] e = refl
  nothing_read (c ∷ cs) e = absurd (omega (arith, ap (λ x. length x) e))

  put_chunks-Chunked :
      (content : Bytes) (reads : List Bytes) → IsRead content reads → Chunked content reads
  put_chunks-Chunked content [] h = no_chunks content [] h (λ w. unfold put_chunks in refl)
  put_chunks-Chunked content ([] ∷ reads) (first, h) =
      no_chunks content ([] ∷ reads) (nothing_read content first)
        (λ w. unfold put_chunks ◌>>=◌ bind in refl)
  put_chunks-Chunked content ((c ∷ cs) ∷ reads) (first, h) =
      elim (Bool-cases (ltb (length (c ∷ cs)) 4096)) [
        | inl short ↦
            last_chunk content c cs reads
              (first
                ∙ short_read content
                    (omega (arith, ap (λ x. length x) first, ltb→lt (length (c ∷ cs)) 4096 short)))
              short
        | inr full ↦
            more_chunks content c cs reads first full
              (put_chunks-Chunked (drop 4096 content) reads h)
      ]

-- The frames of an upload.
abbrev pub upload_frames : Bytes → ℕ → List Bytes → List Sent
upload_frames path size chunks =
    (frame_put_begin, begin_payload path size) ∷ (chunks_of chunks ++ ((frame_put_end, []) ∷ []))

chunks-IsSendable :
    (cs : List Bytes) → All IsChunk cs → All IsSendable (chunks_of cs ++ ((frame_put_end, []) ∷ []))
chunks-IsSendable [] a =
    (record { type_u8 = omega arith; type_nonzero = omega arith; fits = omega arith }, tt)
chunks-IsSendable (c ∷ cs) (h, a) = (
  record { type_u8 = omega arith; type_nonzero = omega arith; fits = omega (arith, h.1) },
  chunks-IsSendable cs a,
)

begin-IsSendable : (path : Bytes) (size : ℕ) → IsSendable (frame_put_begin, begin_payload path size)
begin-IsSendable path size = record {
  type_u8 = omega arith;
  type_nonzero = omega arith;
  fits = omega (arith, length-take 1023 (begin_text path size));
}

upload-Writes :
    (net : Network) (path : Bytes) (size : ℕ) (ferror : Bool) (content : Bytes) (reads : List Bytes)
    (w : Wire)
    → (c : Chunked net ferror content reads)
    → Writes (stream (upload_frames path size c.chunks)) w (upload net path size ferror reads w)
unfolding upload
upload-Writes net path size ferror content reads w c =
    let b = begin_payload path size in
    let end = (frame_put_end, []) ∷ [] in
    subst (λ bs. Writes bs w (upload net path size ferror reads w))
      (ap (λ bs. (header frame_put_begin req_id (length b) ++ b) ++ bs)
        (sym (stream-append (chunks_of c.chunks) end)))
      (Writes-then (header frame_put_begin req_id (length b) ++ b)
        (stream (chunks_of c.chunks) ++ stream end) w (send_frame net frame_put_begin req_id b) _
        (send_frame-Writes net frame_put_begin req_id b w)
        (λ a1 w1.
          Writes-then [] (stream (chunks_of c.chunks) ++ stream end) w1 (await_reply net) _
            (await_reply-Writes net w1)
            (λ a2 w2.
              Writes-then (stream (chunks_of c.chunks)) (stream end) w2
                (put_chunks net ferror reads) _ (c.written w2)
                (λ a3 w3.
                  Writes-then (header frame_put_end req_id 0 ++ []) [] w3
                    (send_frame net frame_put_end req_id []) _
                    (send_frame-Writes net frame_put_end req_id [] w3)
                    (λ a4 w4. await_reply-Writes net w4)))))

-- Whatever the network answers, for a file that is read in full the client writes the frames of an
-- upload, one PUT_BEGIN, a PUT_CHUNK for each 4096 bytes of the file and for the rest of it, and PUT_END,
-- or a first part of their bytes where it fails; the chunks joined are the file, and what
-- `frame_decode_header` of the server reads in the bytes is these frames.
pub upload_sends :
    (net : Network) (path : Bytes) (size : ℕ) (ferror : Bool) (content : Bytes) (reads : List Bytes)
    (w : Wire)
    → IsRead content reads
    → (chunks : List Bytes) × (joined chunks ≡ content)
      × All IsChunk chunks
      × (out : Bytes) × Decodes out (upload_frames path size chunks)
      × Writes out w (upload net path size ferror reads w)
upload_sends net path size ferror content reads w h =
    let c = put_chunks-Chunked net ferror content reads h in
    (
      c.chunks,
      c.whole,
      c.each,
      stream (upload_frames path size c.chunks),
      stream-Decodes (upload_frames path size c.chunks)
          (begin-IsSendable path size, chunks-IsSendable c.chunks c.each),
      upload-Writes net path size ferror content reads w c,
    )
