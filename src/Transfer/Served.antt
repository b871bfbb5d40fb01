-- ===== src/Transfer/Served.antt =====
-- A whole download: what `transfer_handle_get_begin` of src/transfer.c sends when it succeeds.
use reactos_luagent.Base.{
  Option-cases, inl, inr, ℕ, ◌+◌, ◌^◌, ◌-◌, ◌<◌, ◌≡◌, refl, sym, ap, ◌∙◌, List, ◌∷◌, ◌++◌, Bytes,
  length, take, drop, Option, some, arith, subst, append_assoc, take-all,
}
use reactos_luagent.Libc.{c_string}
use reactos_luagent.Frame.{ack}
use reactos_luagent.Machine.{Rc, Transfer, Os, State, success, bytes_block, alloc, ◌>>=◌}
use reactos_luagent.Machine.Keeps.{if-action}
use reactos_luagent.Session.{util_snprintf, session_send_text}
use reactos_luagent.Session.Sent.{IsSent, session_send_frame_success}
use reactos_luagent.Server.Stream.{frame_wire, wires}
use reactos_luagent.Transfer.Upload.{begin_reply, text_of}
use reactos_luagent.Transfer.Download.{
  LoopEnd, finished, read_error, send_error, out_of_fuel, get_loop, get_finish, get_send,
}
use reactos_luagent.Transfer.Whole.{joined}
use reactos_luagent.Transfer.Bounded.{ReadsAtMost, InBounds}
use reactos_luagent.Transfer.Sends.{
  ReadsFile, written, frame_of, frames_of, written_sent, get_loop-Sends,
}

whole_file :
    (content : Bytes) (t o : ℕ)
    → o ≡ 0
    → t ≡ length content
    → take (t - o) (drop o content) ≡ content
whole_file content t o start size =
    ap (λ n. take (t - n) (drop n content)) start
    ∙ ap (λ n. take n content) (omega (arith, size))
    ∙ take-all content

module _ (os : Os) (req_id : ℕ) where
  finish_finished :
      (ended : LoopEnd) (s : State) → (get_finish os req_id ended s).0 ≡ success → ended ≡ finished
  unfolding get_finish ◌>>=◌
  finish_finished finished s e = refl
  finish_finished read_error s e = absurd (ground arith)
  finish_finished send_error s e = absurd (ground arith)
  finish_finished out_of_fuel s e = absurd (ground arith)

  abbrev reply_for : State → Option Bytes
  reply_for s =
      util_snprintf 256
        (begin_reply req_id (text_of s.session.download.path) s.session.download.total_size)

  -- The state in which the loop begins.
  abbrev buffered : ℕ → State → State
  buffered n s = record s { trace = alloc (bytes_block n) ∷ s.trace }

  reply_stage :
      (s : State)
      → (get_send os req_id s).0 ≡ success
      → (reply : Bytes) × (reply_for s ≡ some reply)
        × ((session_send_text os ack req_id reply s).0 ≡ success)
        × (get_send os req_id s ≡ (
            let s1 =
              buffered s.session.download.chunk_size (session_send_text os ack req_id reply s).1 in
            let (ended, s2) = get_loop os (s.session.download.total_size + 1) req_id s1 in
            get_finish os req_id ended s2))
  unfolding get_send ◌>>=◌
  reply_stage s e = elim (Option-cases (reply_for s)) [
    | inl no_room ↦ absurd (ground arith)
    | inr (reply, room) ↦ (reply, room, grind (arith, if-action), grind (arith, if-action))
  ]

  -- The reply, and the file in frames.
  abbrev pub reply_and_file : Bytes → List Bytes → Bytes
  reply_and_file reply chunks =
      frame_wire (frame_of ack req_id (c_string reply)) ++ wires (frames_of req_id chunks)

  -- What a download sends until its loop has finished: the reply, and then the file.
  pub record Serves (path content : Bytes) (s : State) (all : Rc × State) : Type 0 where
    pub reply : Bytes
    pub replied : util_snprintf 256 (begin_reply req_id path (length content)) ≡ some reply
    pub chunks : List Bytes
    pub looped : State
    pub ends : all ≡ get_finish os req_id finished looped
    pub on_wire : written looped.trace ≡ written s.trace ++ reply_and_file reply chunks
    pub whole : joined chunks ≡ content

  text-IsSent :
      (reply : Bytes) (s : State)
      → (session_send_text os ack req_id reply s).0 ≡ success
      → IsSent os ack req_id (c_string reply) s (session_send_text os ack req_id reply s).1
  unfolding session_send_text
  text-IsSent reply s e = session_send_frame_success os ack req_id (c_string reply) s e

  -- A download that is about to begin.
  pub record IsBegun (path content : Bytes) (s : State) : Type 0 where
    pub named : text_of s.session.download.path ≡ path
    pub at_start : s.session.download.offset ≡ 0
    pub sized : s.session.download.total_size ≡ length content
    pub opened : ReadsFile os s.session.download.file content

  reply_named :
      (path content reply : Bytes) (s : State)
      → IsBegun path content s
      → reply_for s ≡ some reply
      → util_snprintf 256 (begin_reply req_id path (length content)) ≡ some reply
  reply_named path content reply s begun room =
      ap (λ p. util_snprintf 256 (begin_reply req_id p (length content))) (sym begun.named)
      ∙ ap (λ n. util_snprintf 256 (begin_reply req_id (text_of s.session.download.path) n))
          (sym begun.sized)
      ∙ room

  pub get_send-Serves :
      (path content : Bytes) (s : State)
      → ReadsAtMost os
      → length content < 2 ^ 64
      → IsBegun path content s
      → (get_send os req_id s).0 ≡ success
      → Serves path content s (get_send os req_id s)
  get_send-Serves path content s reads u64 begun e =
      let (reply, room, ok, same) = reply_stage s e in
      let sent = text-IsSent reply s ok in
      let s1 = buffered s.session.download.chunk_size (session_send_text os ack req_id reply s).1 in
      let (ended, s2) = get_loop os (s.session.download.total_size + 1) req_id s1 in
      let done = finish_finished ended s2 (rw same at e) in
      let size = ap (λ (d : Transfer). d.total_size) sent.same_download in
      let offset = ap (λ (d : Transfer). d.offset) sent.same_download in
      let file =
        subst (λ (d : Transfer). ReadsFile os d.file content) (sym sent.same_download)
          begun.opened in
      let bounds : InBounds os req_id s1 = record {
        in_size = omega (arith, offset, begun.at_start);
        size_u64 = omega (arith, size, begun.sized, u64);
        in_queue = omega (arith, sent.counted, sent.room);
      } in
      let sends =
        get_loop-Sends os req_id (s.session.download.total_size + 1) s1 content file reads bounds
          done in
      record {
        reply = reply;
        replied = reply_named path content reply s begun room;
        chunks = sends.chunks;
        looped = s2;
        ends = same ∙ ap (λ r. get_finish os req_id r s2) done;
        on_wire =
            sends.on_wire
            ∙ ap (λ w. w ++ wires (frames_of req_id sends.chunks))
                (written_sent os ack req_id (c_string reply) s
                  (session_send_text os ack req_id reply s).1 sent)
            ∙ append_assoc (written s.trace) _ _;
        whole = sends.whole ∙ whole_file content _ _ (offset ∙ begun.at_start) (size ∙ begun.sized);
      }

  -- Nothing is written before.
  pub Serves-from :
      (path content : Bytes) (s s' : State) (all all' : Rc × State)
      → all ≡ all'
      → written s'.trace ≡ written s.trace
      → Serves path content s' all'
      → Serves path content s all
  Serves-from path content s s' all all' same silent served = record {
    reply = served.reply;
    replied = served.replied;
    chunks = served.chunks;
    looped = served.looped;
    ends = same ∙ served.ends;
    on_wire = served.on_wire ∙ ap (λ w. w ++ reply_and_file served.reply served.chunks) silent;
    whole = served.whole;
  }
