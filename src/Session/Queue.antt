-- ===== src/Session/Queue.antt =====
-- The write queue: its size is what libuv holds, and stays within the bound.
use reactos_luagent.Base.{
  ℕ, ◌+◌, ◌≤◌, ◌≡◌, refl, List, [], ◌∷◌, ◌++◌, Bytes, length, length-append, arith, Option, none,
  some,
}
use reactos_luagent.Frame.{FrameType, frame_header_size, frame_encode_header}
use reactos_luagent.Frame.Codec.{length-encode}
use reactos_luagent.Machine.{
  Os, State, Counters, ◌>>=◌, pure, util_now_ms, alloc, bytes_block, write_req_block,
}
use reactos_luagent.Machine.Keeps.{Keeps, keeps_rules}
use reactos_luagent.Diag.{count_with}
use reactos_luagent.Session.{
  max_write_queue_bytes, session_close, session_send_frame, session_send_text, session_send_error,
  send_encoded, send_allocated, frame_header, send_buffer, uv_write, on_write_done, write_completed,
}

abbrev pub sum : List ℕ → ℕ
sum [] = 0
sum (n ∷ ns) = n + sum ns

-- `pending_write_bytes` is the sum of the requests that libuv holds, and within its bound.
pub record IsQueued (pending : ℕ) (in_flight : List ℕ) : Type 0 where
  pub counted : pending ≡ sum in_flight
  pub bounded : pending ≤ max_write_queue_bytes

abbrev pub Queued : State → Type 0
Queued s = IsQueued s.session.pending_write_bytes s.in_flight

pub count_with-Queued : (f : Counters → Counters) → Keeps Queued (count_with f)
unfolding count_with
count_with-Queued f = record { at = λ s h. h }

pub session_close-Queued : Keeps Queued session_close
unfolding session_close
session_close-Queued = search (keeps_rules, count_with-Queued) depth 30

sum-append_one : (ns : List ℕ) (n : ℕ) → sum (ns ++ n ∷ []) ≡ sum ns + n
sum-append_one [] n = omega arith
sum-append_one (m ∷ ns) n = omega (arith, sum-append_one ns n)

-- Room for the buffer is what `session_send_frame` tests.
send_buffer-Queued :
    (os : Os) (buf : Bytes) (s : State)
    → Queued s
    → s.session.pending_write_bytes + length buf ≤ max_write_queue_bytes
    → Queued (send_buffer os buf s).1
unfolding send_buffer count_with util_now_ms uv_write ◌>>=◌
send_buffer-Queued os buf s h room = ground (arith, sum-append_one s.in_flight (length buf))

-- The last step, on the encoded header.
send_encoded-Queued :
    (os : Os) (payload : Bytes) (head : Option Bytes) (s : State)
    → Queued s
    → s.session.pending_write_bytes + frame_header_size + length payload ≤ max_write_queue_bytes
    → ((out : Bytes) → head ≡ some out → length out ≡ frame_header_size)
    → Queued (send_encoded os payload head s).1
unfolding send_encoded pure
send_encoded-Queued os payload none s h room fits = h
send_encoded-Queued os payload (some out) s h room fits =
    send_buffer-Queued os (out ++ payload) s h
      (omega (arith, fits out refl, length-append out payload))

send_allocated-Queued :
    (os : Os) (type : FrameType) (req_id : ℕ) (payload : Bytes) (s : State)
    → Queued s
    → s.session.pending_write_bytes + frame_header_size + length payload ≤ max_write_queue_bytes
    → Queued (send_allocated os type req_id payload s).1
unfolding send_allocated ◌>>=◌
send_allocated-Queued os type req_id payload s h room = ground (
  arith,
  send_encoded-Queued os payload
      (frame_encode_header frame_header_size (frame_header type req_id payload))
      (record s {
        trace =
            alloc (bytes_block (frame_header_size + length payload))
            ∷ alloc write_req_block
            ∷ s.trace;
      })
      h room (length-encode (frame_header type req_id payload)),
)

-- Sending keeps the queue within its bound, whether or not it succeeds.
pub session_send_frame-Queued :
    (os : Os) (type : FrameType) (req_id : ℕ) (payload : Bytes)
    → Keeps Queued (session_send_frame os type req_id payload)
unfolding session_send_frame ◌>>=◌
session_send_frame-Queued os type req_id payload = record {
  at = λ s h.
      ground (arith, session_close-Queued.at s h, send_allocated-Queued os type req_id payload s h);
}

pub session_send_text-Queued :
    (os : Os) (type : FrameType) (req_id : ℕ) (payload : Bytes)
    → Keeps Queued (session_send_text os type req_id payload)
unfolding session_send_text
session_send_text-Queued os type req_id payload = session_send_frame-Queued os type req_id _

pub session_send_error-Queued :
    (os : Os) (req_id : ℕ) (code message : Bytes)
    → Keeps Queued (session_send_error os req_id code message)
unfolding session_send_error
session_send_error-Queued os req_id code message = search (keeps_rules, session_send_text-Queued)

-- A completed write takes its bytes off the count.
pub write_completed-Queued : (s : State) → Queued s → Queued (write_completed s)
unfolding write_completed on_write_done
write_completed-Queued s h = ground arith

pub util_now_ms-Queued : (os : Os) → Keeps Queued (util_now_ms os)
unfolding util_now_ms
util_now_ms-Queued os = search keeps_rules

pub ruleset queue_rules = (
  keeps_rules, count_with-Queued, session_close-Queued, session_send_frame-Queued,
  session_send_text-Queued, session_send_error-Queued, util_now_ms-Queued,
)
