-- ===== src/Transfer/Sends.antt =====
-- What a download sends: the loop of `transfer_handle_get_begin` gives the file to libuv, in order
-- and without a gap, as the payloads of GET_CHUNK frames.
use reactos_luagent.Base.{
  drop-drop, take-add, subst, ℕ, zero, suc, ◌+◌, ◌-◌, ◌≤◌, ◌≡◌, refl, sym, ap, ◌∙◌, inl, inr, List,
  [], ◌∷◌, ◌++◌, Bytes, length, take, drop, some, arith, ltb, Bool-cases, ltb→lt, not-ltb→le,
  append_assoc, append-nil, ℤ,
}
use reactos_luagent.Frame.{FrameType, get_chunk}
use reactos_luagent.Machine.{Action, pure, Os, State, Trace, tcp_write}
use reactos_luagent.Session.{frame_header}
use reactos_luagent.Session.Sent.{IsSent}
use reactos_luagent.Server.Stream.{Frame, frame_wire, wires}
use reactos_luagent.Transfer.Download.{get_loop, finished, LoopEnd}
use reactos_luagent.Transfer.Whole.{joined}
use reactos_luagent.Transfer.Bounded.{
  read_at, ReadsAtMost, InBounds, round-Advances, round_done, Advances,
}

-- What was given to libuv for the client, oldest first.
abbrev pub written : Trace → Bytes
written [] = []
written (tcp_write out ∷ t) = written t ++ out
written (e ∷ t) = written t

abbrev pub frame_of : FrameType → ℕ → Bytes → Frame
frame_of type req_id payload = record {
  header = frame_header type req_id payload;
  payload = payload;
}

-- A file that is read holds `content`, and does not change: a read gives bytes of it from the
-- offset on, perhaps fewer than were asked for.
pub record ReadsFile (os : Os) (fd : ℤ) (content : Bytes) : Type 0 where
  pub prefix :
      (t : Trace) (n o : ℕ) (b : Bytes)
      → os.read_result t fd n o ≡ some b
      → b ≡ take (length b) (drop o content)

module _ (os : Os) where
  -- A frame that was sent is on the wire as it is encoded.
  pub written_sent :
      (type : FrameType) (req_id : ℕ) (payload : Bytes) (s s' : State)
      → IsSent os type req_id payload s s'
      → written s'.trace ≡ written s.trace ++ frame_wire (frame_of type req_id payload)
  written_sent type req_id payload s s' sent = rw (sent.calls, sent.encoded) refl

take_none : (t o : ℕ) (xs : Bytes) → t ≤ o → take (t - o) xs ≡ []
take_none t o xs h = let none_left : t - o ≡ 0 = omega arith in rw none_left

-- A part of a file and the part behind it are one part.
cut_next :
    (content : Bytes) (o m o' t t' : ℕ)
    → o' ≡ o + m
    → t' ≡ t
    → o' ≤ t'
    → take m (drop o content) ++ take (t' - o') (drop o' content) ≡ take (t - o) (drop o content)
cut_next content o m o' t t' next total fits =
    ap (λ n. take m (drop o content) ++ take (t' - o') (drop n content)) next
    ∙ ap (λ xs. take m (drop o content) ++ take (t' - o') xs) (drop-drop o m content)
    ∙ sym (take-add m (t' - o') (drop o content))
    ∙ ap (λ n. take n (drop o content)) (omega (arith, next, total, fits))

module _ (req_id : ℕ) where
  abbrev pub frames_of : List Bytes → List Frame
  frames_of [] = []
  frames_of (c ∷ cs) = frame_of get_chunk req_id c ∷ frames_of cs

  -- What a loop that finished has sent.
  pub record Sends (content : Bytes) (s s' : State) : Type 0 where
    pub chunks : List Bytes
    pub on_wire : written s'.trace ≡ written s.trace ++ wires (frames_of chunks)
    pub whole :
        joined chunks
        ≡ take
            (s.session.download.total_size - s.session.download.offset)
            (drop s.session.download.offset content)

module _ (os : Os) (req_id : ℕ) where
  -- What a round writes, and the rest of the file after it.
  round_writes :
      (more : Action LoopEnd) (s : State) (a : Advances os req_id more s)
      → written a.next.trace ≡ written s.trace ++ frame_wire (frame_of get_chunk req_id a.chunk)
  round_writes more s a =
      ap (λ (n : State). written n.trace) a.advances
      ∙ written_sent os get_chunk req_id a.chunk (read_at os req_id s) a.after_send a.sent

  Sends-more :
      {more : Action LoopEnd} (s : State) (content : Bytes) {s' : State}
      → ReadsFile os s.session.download.file content
      → (a : Advances os req_id more s) → Sends req_id content a.next s'
      → Sends req_id content s s'
  Sends-more s content file a rest = record {
    chunks = a.chunk ∷ rest.chunks;
    on_wire =
        rest.on_wire
        ∙ ap (λ w. w ++ wires (frames_of req_id rest.chunks)) (round_writes _ s a)
        ∙ append_assoc (written s.trace) _ _;
    whole =
        ap (λ c. c ++ joined rest.chunks) (file.prefix _ _ _ a.chunk a.was_read)
        ∙ ap (λ c. take (length a.chunk) (drop s.session.download.offset content) ++ c) rest.whole
        ∙ cut_next content _ _ _ _ _ a.counts a.total a.bounds.in_size;
  }

  pub get_loop-Sends :
      (fuel : ℕ) (s : State) (content : Bytes)
      → ReadsFile os s.session.download.file content
      → ReadsAtMost os
      → InBounds os req_id s
      → (get_loop os fuel req_id s).0 ≡ finished
      → Sends req_id content s (get_loop os fuel req_id s).1
  unfolding get_loop
  get_loop-Sends zero s content file reads b e = absurd (unfold pure in ground arith)
  get_loop-Sends (suc fuel) s content file reads b e =
      elim (Bool-cases (ltb s.session.download.offset s.session.download.total_size)) [
        | inl less ↦
            let a = round-Advances os req_id _ s reads b (ltb→lt _ _ less) (inl e) in
            let file' = subst (λ fd. ReadsFile os fd content) (sym a.same_file) file in
            rw a.same (
              Sends-more s content file a
                (get_loop-Sends fuel a.next content file' reads a.bounds (rw a.same at e)))
        | inr all ↦ rw (round_done os req_id _ s (not-ltb→le _ _ all)) (record {
          chunks = [];
          on_wire = sym (append-nil (written s.trace));
          whole = sym (take_none _ _ (drop s.session.download.offset content) (not-ltb→le _ _ all));
        })
      ]
