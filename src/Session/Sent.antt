-- ===== src/Session/Sent.antt =====
-- What sending a frame does, by its result.
use reactos_luagent.Base.{
  ℕ, ◌+◌, ◌≤◌, ◌≡◌, refl, ◌∙◌, ap, [], ◌∷◌, ◌++◌, Bytes, false, Option, none, some, length,
  length-append, arith,
}
use reactos_luagent.Frame.{FrameType, frame_header_size, frame_encode_header}
use reactos_luagent.Frame.Codec.{length-encode}
use reactos_luagent.Machine.{
  Os, State, success, alloc, bytes_block, write_req_block, hrtime, tcp_write, ◌>>=◌, pure,
  util_now_ms,
}
use reactos_luagent.Diag.{count_with}
use reactos_luagent.Session.{
  max_write_queue_bytes, session_send_frame, send_encoded, send_allocated, frame_header,
  send_buffer, uv_write,
}

module _ (os : Os) (type : FrameType) (req_id : ℕ) (payload : Bytes) where
  -- A frame that is sent: its header is encoded, the 14 bytes and the payload behind them are given
  -- to libuv in one write, which is counted, and the queue had room for it.
  pub record IsSent (s s' : State) : Type 0 where
    pub was_open : s.session.closed ≡ false
    pub room :
        s.session.pending_write_bytes + frame_header_size + length payload ≤ max_write_queue_bytes
    pub head : Bytes
    pub encoded :
        frame_encode_header frame_header_size (frame_header type req_id payload) ≡ some head
    pub calls :
        s'.trace
        ≡ tcp_write (head ++ payload)
          ∷ hrtime
          ∷ alloc (bytes_block (frame_header_size + length payload))
          ∷ alloc write_req_block
          ∷ s.trace
    pub held : s'.in_flight ≡ s.in_flight ++ (frame_header_size + length payload) ∷ []
    pub counted :
        s'.session.pending_write_bytes
        ≡ s.session.pending_write_bytes + frame_header_size + length payload
    pub same_download : s'.session.download ≡ s.session.download

  -- The state after the two allocations.
  abbrev asked : State → State
  asked s = record s {
    trace =
        alloc (bytes_block (frame_header_size + length payload)) ∷ alloc write_req_block ∷ s.trace;
  }

  buffer_sent :
      (out : Bytes) (s : State)
      → (send_buffer os out s).0 ≡ success
      → ((send_buffer os out s).1.trace ≡ tcp_write out ∷ hrtime ∷ s.trace)
        × ((send_buffer os out s).1.in_flight ≡ s.in_flight ++ length out ∷ [])
        × ((send_buffer os out s).1.session.pending_write_bytes
            ≡ s.session.pending_write_bytes + length out)
        × ((send_buffer os out s).1.session.download ≡ s.session.download)
  unfolding send_buffer count_with util_now_ms uv_write ◌>>=◌
  buffer_sent out s e = ground arith

  allocated_sent :
      (s : State)
      → (send_allocated os type req_id payload s).0 ≡ success
      → send_allocated os type req_id payload s
        ≡ send_encoded os payload
            (frame_encode_header frame_header_size (frame_header type req_id payload))
            (asked s)
  unfolding send_allocated ◌>>=◌
  allocated_sent s e = ground arith

  encoded_sent :
      (head : Option Bytes) (s : State)
      → (send_encoded os payload head s).0 ≡ success
      → (h : Bytes) × (head ≡ some h)
        × (send_encoded os payload head s ≡ send_buffer os (h ++ payload) s)
  unfolding send_encoded pure
  encoded_sent none s e = absurd (ground arith)
  encoded_sent (some h) s e = (h, refl, refl)

  opened :
      (s : State)
      → (session_send_frame os type req_id payload s).0 ≡ success
      → (s.session.closed ≡ false)
        × (s.session.pending_write_bytes + frame_header_size + length payload
            ≤ max_write_queue_bytes)
        × (session_send_frame os type req_id payload s ≡ send_allocated os type req_id payload s)
  unfolding session_send_frame ◌>>=◌
  opened s e = ground arith

  -- If `session_send_frame` succeeds, then the session was open and the queue had room, the
  -- encoded header and the payload behind it were given to libuv in one write, and the write is
  -- counted.
  pub session_send_frame_success :
      (s : State)
      → (session_send_frame os type req_id payload s).0 ≡ success
      → IsSent s (session_send_frame os type req_id payload s).1
  session_send_frame_success s e =
      let (was_open, room, at_alloc) = opened s e in
      let e1 = rw at_alloc at e in
      let at_enc = allocated_sent s e1 in
      let (head, encoded, at_buf) = encoded_sent _ (asked s) (rw at_enc at e1) in
      let same = at_alloc ∙ at_enc ∙ at_buf in
      let size = length-append head payload in
      let (calls, held, counted, down) = buffer_sent (head ++ payload) (asked s) (rw same at e) in
      let fits = length-encode (frame_header type req_id payload) head encoded in
      rw same (record {
        was_open = was_open;
        room = room;
        head = head;
        encoded = encoded;
        calls = calls;
        held = held ∙ ap (λ n. s.in_flight ++ n ∷ []) (omega (arith, size, fits));
        counted = omega (arith, size, fits, counted);
        same_download = down;
      })
