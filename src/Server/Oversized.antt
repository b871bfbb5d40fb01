-- ===== src/Server/Oversized.antt =====
-- A frame that the header check accepts and the receive buffer cannot hold.
use reactos_luagent.Base.{
  ◌+◌, ◌<◌, ◌≤◌, ◌≡◌, refl, ◌⊎◌, inl, inr, ◌∷◌, ◌++◌, Bytes, length, length-append, true, arith,
  ltb, Bool-cases, not-ltb→le, ◌∙◌, ◌/◌, lt→ltb, le→not-ltb, ltb→lt,
}
use reactos_luagent.Frame.{
  FrameHeader, ok, frame_header_size, frame_decode_header, max_frame_payload,
}
use reactos_luagent.Frame.Codec.{decode-append, decode_cases}
use reactos_luagent.Machine.{Os, State, hrtime, ◌>>=◌, util_now_ms}
use reactos_luagent.Session.Close.{closed-session_close}
use reactos_luagent.Protocol.{Lua, protocol_handle_control}
use reactos_luagent.Server.{rx_capacity, received, read_cb, consume}
use reactos_luagent.Server.Stream.{loop_partial}

module _ (os : Os) (lua : Lua) where
  -- The state once the bytes of a read are in the buffer.
  abbrev pub after_read : Bytes → State → State
  after_read bytes s = record s {
    session = record s.session {
      last_rx_ms = os.nanoseconds s.trace / 1000000;
      rx_buf = s.session.rx_buf ++ bytes;
    };
    trace = hrtime ∷ s.trace;
  }

  -- The loop leaves a buffer that holds no more than a part of its first frame.
  consume_partial :
      (h : FrameHeader) (s : State)
      → frame_decode_header s.session.rx_buf ≡ ok h
      → length s.session.rx_buf < frame_header_size + h.length
      → consume os lua s ≡ (tt, s)
  unfolding consume ◌>>=◌
  consume_partial h s e less =
      rw
        (loop_partial
          (λ (h : FrameHeader) (payload : Bytes).
            protocol_handle_control os lua h.type h.req_id payload)
          (length s.session.rx_buf) s.session.rx_buf s (inr (h, e, less)))
        refl

  -- What a read does, by whether its bytes fit the buffer.
  pub read_over :
      (bytes : Bytes) (s : State)
      → s.session.rx_cap < length s.session.rx_buf + length bytes
      → (read_cb os lua (received bytes) s).1.session.closed ≡ true
  unfolding read_cb util_now_ms ◌>>=◌
  read_over bytes s over = rw (lt→ltb _ _ over) (closed-session_close _)

  pub read_fits :
      (bytes : Bytes) (s : State)
      → length s.session.rx_buf + length bytes ≤ s.session.rx_cap
      → read_cb os lua (received bytes) s ≡ consume os lua (after_read bytes s)
  unfolding read_cb util_now_ms ◌>>=◌
  read_fits bytes s fits = rw (le→not-ltb _ _ fits) refl

  -- If the buffer starts with an accepted header whose frame is larger than the buffer, then a
  -- read closes the session, or it only adds its bytes: the frame is never handled, however the
  -- rest of it arrives.
  pub oversized_never_handled :
      (h : FrameHeader) (s : State) (bytes : Bytes)
      → frame_decode_header s.session.rx_buf ≡ ok h
      → rx_capacity < frame_header_size + h.length
      → s.session.rx_cap ≡ rx_capacity
      → (h.length ≤ max_frame_payload)
        × (((read_cb os lua (received bytes) s).1.session.closed ≡ true)
            ⊎ ((read_cb os lua (received bytes) s ≡ (tt, after_read bytes s))
                × (frame_decode_header (s.session.rx_buf ++ bytes) ≡ ok h)))
  oversized_never_handled h s bytes e large cap =
      let (len, mag, at, valid) = (decode_cases s.session.rx_buf h).1.0 e in
      let still : frame_decode_header (s.session.rx_buf ++ bytes) ≡ ok h =
        decode-append s.session.rx_buf bytes len ∙ e in
      (
        valid.length_bound,
        elim (Bool-cases (ltb s.session.rx_cap (length s.session.rx_buf + length bytes))) [
          | inl over ↦ inl (read_over bytes s (ltb→lt _ _ over))
          | inr fits ↦ inr (
            read_fits bytes s (not-ltb→le _ _ fits)
                ∙ consume_partial h (after_read bytes s) still
                    (omega (arith, not-ltb→le _ _ fits, length-append s.session.rx_buf bytes)),
            still,
          )
        ],
      )
