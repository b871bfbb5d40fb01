-- ===== src/Transfer/Bounded.antt =====
-- How much a download can send: it never waits for the write queue to empty.
use reactos_luagent.Base.{
  ℕ, zero, suc, ◌+◌, ◌-◌, ◌/◌, ◌%◌, ◌^◌, ◌<◌, ◌≤◌, ◌≡◌, ◌≢◌, refl, ◌∙◌, ap, ◌⊎◌, inl, inr, [], ◌∷◌,
  Bytes, Option, none, some, length, arith, ltb, if◌then◌else◌, Bool-cases, ltb→lt, not-ltb→le, ℤ,
}
use reactos_luagent.Frame.{get_chunk}
use reactos_luagent.Machine.{
  Os, State, Trace, Transfer, Action, success, hrtime, fs_read, ◌>>=◌, util_now_ms, pure,
}
use reactos_luagent.Session.{max_write_queue_bytes, session_send_frame}
use reactos_luagent.Session.Sent.{IsSent, session_send_frame_success}
use reactos_luagent.Transfer.Download.{
  LoopEnd, finished, out_of_fuel, get_sent, get_round, get_loop, positive,
}

-- A read gives no more bytes than were asked for.
pub record ReadsAtMost (os : Os) : Type 0 where
  pub at_most :
      (t : Trace) (fd : ℤ) (n o : ℕ) (b : Bytes) → os.read_result t fd n o ≡ some b → length b ≤ n

-- A loop that no error ended.
abbrev pub Goes : LoopEnd → Type 0
Goes r = (r ≡ finished) ⊎ (r ≡ out_of_fuel)

module _ (os : Os) (req_id : ℕ) where
  -- The state after a round that goes on.
  abbrev pub advanced : Bytes → State → State
  advanced chunk s = record s {
    session = record s.session {
      download = record s.session.download {
        offset = (s.session.download.offset + length chunk) % 2 ^ 64;
        last_progress_ms = os.nanoseconds s.trace / 1000000;
      };
    };
    trace = hrtime ∷ s.trace;
  }

  sent_finished :
      (more : Action LoopEnd) (chunk : Bytes) (s : State)
      → Goes (get_sent os req_id more (some chunk) s).0
      → ((session_send_frame os get_chunk req_id chunk s).0 ≡ success)
        × (get_sent os req_id more (some chunk) s
            ≡ more (advanced chunk (session_send_frame os get_chunk req_id chunk s).1))
  unfolding get_sent util_now_ms ◌>>=◌
  sent_finished more chunk s e = ground arith

  positive-some :
      (got : Option Bytes) (chunk : Bytes)
      → positive got ≡ some chunk
      → (got ≡ some chunk) × (0 < length chunk)
  positive-some none chunk e = absurd (ground arith)
  positive-some (some []) chunk e = absurd (ground arith)
  positive-some (some (b ∷ bs)) chunk e = (e, ground (arith))

  -- How much a round asks for, what it gets, and the state then.
  abbrev pub asked_for : State → ℕ
  asked_for s =
      let left = s.session.download.total_size - s.session.download.offset in
      if ltb left s.session.download.chunk_size then left else s.session.download.chunk_size

  abbrev pub got_at : State → Option Bytes
  got_at s = os.read_result s.trace s.session.download.file (asked_for s) s.session.download.offset

  abbrev pub read_at : State → State
  read_at s = record s {
    trace = fs_read s.session.download.file (asked_for s) s.session.download.offset ∷ s.trace;
  }

  pub round_done :
      (more : Action LoopEnd) (s : State)
      → s.session.download.total_size ≤ s.session.download.offset
      → get_round os req_id more s ≡ (finished, s)
  unfolding get_round ◌>>=◌
  round_done more s h = ground arith

  round_reads :
      (more : Action LoopEnd) (s : State)
      → s.session.download.offset < s.session.download.total_size
      → get_round os req_id more s ≡ get_sent os req_id more (positive (got_at s)) (read_at s)
  unfolding get_round ◌>>=◌
  round_reads more s h = ground arith

  -- A download in its bounds.
  pub record InBounds (s : State) : Type 0 where
    pub in_size : s.session.download.offset ≤ s.session.download.total_size
    pub size_u64 : s.session.download.total_size < 2 ^ 64
    pub in_queue : s.session.pending_write_bytes ≤ max_write_queue_bytes

  -- A round that goes on: it has read a chunk and sent it.
  pub record Advances (more : Action LoopEnd) (s : State) : Type 0 where
    pub next : State
    pub chunk : Bytes
    pub was_read : got_at s ≡ some chunk
    pub after_send : State
    pub sent : IsSent os get_chunk req_id chunk (read_at s) after_send
    pub advances : next ≡ advanced chunk after_send
    pub same : get_round os req_id more s ≡ more next
    pub bounds : InBounds next
    pub total : next.session.download.total_size ≡ s.session.download.total_size
    pub same_file : next.session.download.file ≡ s.session.download.file
    pub counts : next.session.download.offset ≡ s.session.download.offset + length chunk
    pub moves : s.session.download.offset < next.session.download.offset
    pub fills :
        s.session.pending_write_bytes + (next.session.download.offset - s.session.download.offset)
        ≤ next.session.pending_write_bytes

  asked_for_le :
      (s : State) → asked_for s ≤ s.session.download.total_size - s.session.download.offset
  asked_for_le s = ground arith

  step-Advances :
      (more : Action LoopEnd) (s : State) (got : Option Bytes)
      → ReadsAtMost os
      → InBounds s
      → s.session.download.offset < s.session.download.total_size
      → positive (got_at s) ≡ got
      → Goes (get_sent os req_id more got (read_at s)).0
      → Advances more s
  step-Advances more s none reads b less g e = absurd (unfold get_sent pure in ground arith)
  step-Advances more s (some chunk) reads b less g e =
      let (ok, eq) = sent_finished more chunk (read_at s) e in
      let sent = session_send_frame_success os get_chunk req_id chunk (read_at s) ok in
      let (was, nonempty) = positive-some (got_at s) chunk g in
      let most =
        reads.at_most s.trace s.session.download.file (asked_for s) s.session.download.offset chunk
          was in
      let offset = ap (λ (d : Transfer). d.offset) sent.same_download in
      let total = ap (λ (d : Transfer). d.total_size) sent.same_download in
      let left = asked_for_le s in
      record {
        next = advanced chunk (session_send_frame os get_chunk req_id chunk (read_at s)).1;
        chunk = chunk;
        was_read = was;
        after_send = (session_send_frame os get_chunk req_id chunk (read_at s)).1;
        sent = sent;
        advances = refl;
        same = round_reads more s less ∙ ap (λ o. get_sent os req_id more o (read_at s)) g ∙ eq;
        bounds = record {
          in_size = omega (arith, offset, total, most, left, less, b.size_u64);
          size_u64 = omega (arith, total, b.size_u64);
          in_queue = omega (arith, sent.counted, sent.room);
        };
        total = total;
        same_file = ap (λ (d : Transfer). d.file) sent.same_download;
        counts = omega (arith, offset, total, most, left, less, b.size_u64);
        moves = omega (arith, offset, total, most, left, less, b.size_u64, nonempty);
        fills = omega (arith, offset, total, most, left, less, b.size_u64, sent.counted);
      }

  pub round-Advances :
      (more : Action LoopEnd) (s : State)
      → ReadsAtMost os
      → InBounds s
      → s.session.download.offset < s.session.download.total_size
      → Goes (get_round os req_id more s).0
      → Advances more s
  round-Advances more s reads b less e =
      step-Advances more s (positive (got_at s)) reads b less refl
        (rw (round_reads more s less) at e)

  -- If a read gives no more than was asked for, the queue is within its bound and the offset is
  -- within the size, and the loop of `transfer_handle_get_begin` comes to its end without an
  -- error, then the bytes that were left to send fitted the room that the write queue had when it
  -- began: the loop does not wait for writes to complete.
  pub get_loop_fits :
      (fuel : ℕ) (s : State)
      → ReadsAtMost os
      → InBounds s
      → (get_loop os fuel req_id s).0 ≡ finished
      → s.session.pending_write_bytes + (s.session.download.total_size - s.session.download.offset)
        ≤ max_write_queue_bytes
  unfolding get_loop
  get_loop_fits zero s reads b e = absurd (unfold pure in ground arith)
  get_loop_fits (suc fuel) s reads b e =
      elim (Bool-cases (ltb s.session.download.offset s.session.download.total_size)) [
        | inl less ↦
            let a = round-Advances _ s reads b (ltb→lt _ _ less) (inl e) in
            omega (
              arith,
              a.fills,
              a.moves,
              a.total,
              a.bounds.in_size,
              get_loop_fits fuel a.next reads a.bounds (rw a.same at e),
            )
        | inr all ↦ omega (arith, not-ltb→le _ _ all, b.in_queue)
      ]

  -- If a read gives no more than was asked for, and the queue and the offset are within their
  -- bounds, then as many rounds as there are bytes left, and one more, are fuel enough.
  pub get_loop_enough :
      (fuel : ℕ) (s : State)
      → ReadsAtMost os
      → InBounds s
      → s.session.download.total_size - s.session.download.offset < fuel
      → (get_loop os fuel req_id s).0 ≢ out_of_fuel
  unfolding get_loop
  get_loop_enough zero s reads b enough e = absurd (omega arith)
  get_loop_enough (suc fuel) s reads b enough e =
      elim (Bool-cases (ltb s.session.download.offset s.session.download.total_size)) [
        | inl less ↦
            let a = round-Advances _ s reads b (ltb→lt _ _ less) (inr e) in
            get_loop_enough fuel a.next reads a.bounds
              (omega (arith, a.moves, a.total, a.bounds.in_size, enough)) (rw a.same at e)
        | inr all ↦ absurd (ground (arith, rw (round_done _ s (not-ltb→le _ _ all)) at e))
      ]
