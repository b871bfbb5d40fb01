-- ===== src/Server/Deframe.antt =====
-- The loop of `read_cb` as a stream parser: its fuel, and how the bytes are cut does not matter.
use reactos_luagent.Base.{
  ℕ, zero, suc, ◌+◌, ◌<◌, ◌≤◌, ◌≡◌, refl, ◌∙◌, sym, ap, Bytes, ◌++◌, length, drop, length-append,
  length-drop, Option, none, some, arith, Bool-cases, inl, inr, ltb, lt→ltb, le→not-ltb, ltb→lt,
  not-ltb→le, take-append_le, drop-append_le,
}
use reactos_luagent.Frame.{
  FrameHeader, FrameStatus, need_more, malformed, ok, frame_header_size, frame_decode_header,
}
use reactos_luagent.Frame.Codec.{decode-append}
use reactos_luagent.Machine.{State, Action, Rc, ◌>>=◌, pure}
use reactos_luagent.Server.{frame_size, frame_round, frames_loop}

module _ (handle : FrameHeader → Bytes → Action Rc) where
  -- The rounds of the loop, by what stands at the front of the input.
  pub loop_short :
      (fuel : ℕ) (a : Bytes) (s : State)
      → length a < frame_header_size
      → frames_loop handle fuel a s ≡ (some a, s)
  unfolding frames_loop pure
  loop_short zero a s h = refl
  loop_short (suc fuel) a s h = rw (lt→ltb _ _ h) refl

  pub loop_round :
      (fuel : ℕ) (a : Bytes) (s : State)
      → frame_header_size ≤ length a
      → frames_loop handle (suc fuel) a s
        ≡ frame_round handle a
            (frame_decode_header a)
            (λ t. frames_loop handle fuel (drop (frame_size (frame_decode_header a)) a) t)
            s
  unfolding frames_loop
  loop_round fuel a s h = rw (le→not-ltb _ _ h) refl

  -- A round does not depend on what comes after its frame.
  round_cong :
      (rest : Bytes) (st : FrameStatus) (m n : Action (Option Bytes)) (s : State)
      → ((t : State) → frame_size st ≤ length rest → 0 < frame_size st → m t ≡ n t)
      → frame_round handle rest st m s ≡ frame_round handle rest st n s
  unfolding frame_round ◌>>=◌
  round_cong rest need_more m n s h = refl
  round_cong rest malformed m n s h = refl
  round_cong rest (ok header) m n s h =
      elim (Bool-cases (ltb (length rest) (frame_header_size + header.length))) [
        | inl short ↦ rw short refl
        | inr whole ↦ rw whole (h _ (not-ltb→le _ _ whole) (omega arith))
      ]

  -- As many rounds as bytes are enough, and more change nothing.
  pub frames_loop-fuel :
      (f g : ℕ) (a : Bytes) (s : State)
      → length a ≤ f
      → length a ≤ g
      → frames_loop handle f a s ≡ frames_loop handle g a s
  frames_loop-fuel zero g a s hf hg =
      loop_short zero a s (omega arith) ∙ sym (loop_short g a s (omega arith))
  frames_loop-fuel (suc f) zero a s hf hg =
      loop_short (suc f) a s (omega arith) ∙ sym (loop_short zero a s (omega arith))
  frames_loop-fuel (suc f) (suc g) a s hf hg =
      elim (Bool-cases (ltb (length a) frame_header_size)) [
        | inl short ↦
            loop_short (suc f) a s (ltb→lt _ _ short)
            ∙ sym (loop_short (suc g) a s (ltb→lt _ _ short))
        | inr long ↦
            loop_round f a s (not-ltb→le _ _ long)
            ∙ round_cong a (frame_decode_header a) _ _ s (λ t le pos.
              frames_loop-fuel f g (drop (frame_size (frame_decode_header a)) a) t
                (omega (arith, length-drop (frame_size (frame_decode_header a)) a))
                (omega (arith, length-drop (frame_size (frame_decode_header a)) a)))
            ∙ sym (loop_round g a s (not-ltb→le _ _ long))
      ]

  -- The loop again, on what it left and more bytes behind that.
  abbrev pub resume : ℕ → Bytes → Option Bytes × State → Option Bytes × State
  resume g b (none, s) = (none, s)
  resume g b (some r, s) = frames_loop handle g (r ++ b) s

  round-append :
      (g : ℕ) (a b : Bytes) (st : FrameStatus) (m m' : Action (Option Bytes)) (s : State)
      → frame_header_size ≤ length a
      → ((t : State) → frame_size st ≤ length a → 0 < frame_size st → m' t ≡ resume g b (m t))
      → frame_round handle (a ++ b) st m' s ≡ frames_loop handle g (a ++ b) s
      → frame_round handle (a ++ b) st m' s ≡ resume g b (frame_round handle a st m s)
  unfolding frame_round ◌>>=◌
  round-append g a b need_more m m' s len more whole = whole
  round-append g a b malformed m m' s len more whole = refl
  round-append g a b (ok header) m m' s len more whole =
      elim (Bool-cases (ltb (length a) (frame_header_size + header.length))) [
        | inl short ↦ rw short whole
        | inr fits ↦
            let size : frame_header_size + header.length ≤ length a = not-ltb→le _ _ fits in
            rw
              (
                fits,
                le→not-ltb (length (a ++ b)) (frame_header_size + header.length)
                    (omega (arith, length-append a b)),
                drop-append_le frame_header_size a b len,
                take-append_le header.length (drop frame_header_size a) b
                    (omega (arith, length-drop frame_header_size a)),
              )
              (more _ size (omega arith))
      ]

  loop_round-append :
      (g : ℕ) (a b : Bytes) (s : State)
      → frame_header_size ≤ length a
      → frames_loop handle (suc g) (a ++ b) s
        ≡ frame_round handle
            (a ++ b)
            (frame_decode_header a)
            (λ t. frames_loop handle g (drop (frame_size (frame_decode_header a)) (a ++ b)) t)
            s
  loop_round-append g a b s len =
      rw (decode-append a b len) at (loop_round g (a ++ b) s (omega (arith, length-append a b)))

  loop-append :
      (f g : ℕ) (a b : Bytes) (s : State)
      → length a ≤ f
      → length (a ++ b) ≤ g
      → frames_loop handle g (a ++ b) s ≡ resume g b (frames_loop handle f a s)
  loop-append zero g a b s hf hg = rw (loop_short zero a s (omega arith)) refl
  loop-append (suc f) zero a b s hf hg =
      rw (loop_short (suc f) a s (omega (arith, length-append a b))) refl
  loop-append (suc f) (suc g) a b s hf hg = elim (Bool-cases (ltb (length a) frame_header_size)) [
    | inl short ↦ rw (loop_short (suc f) a s (ltb→lt _ _ short)) refl
    | inr long ↦
        let len : frame_header_size ≤ length a = not-ltb→le _ _ long in
        let n : ℕ = frame_size (frame_decode_header a) in
        let first = loop_round-append g a b s len in
        first
        ∙ round-append (suc g) a b (frame_decode_header a) _ _ s len
            (λ t size pos.
              let tail : length (drop n a) ≤ f = omega (arith, length-drop n a) in
              let whole : length (drop n a ++ b) ≤ g =
                omega (arith, length-drop n a, length-append (drop n a) b, length-append a b) in
              ap (λ r. frames_loop handle g r t) (drop-append_le n a b size)
              ∙ frames_loop-fuel g (suc g) (drop n a ++ b) t whole (omega arith)
              ∙ loop-append f (suc g) (drop n a) b t tail (omega arith))
            (sym first)
        ∙ ap (resume (suc g) b) (sym (loop_round f a s len))
  ]

  -- The loop on a stream of bytes does what it does on a first part of it, and then on what it
  -- left of that and the second part: the same frames are handled, in the same order, and the
  -- same bytes are left, wherever the stream is cut. After a bad header in the first part neither
  -- goes on.
  pub frames_loop-append :
      (a b : Bytes) (s : State)
      → frames_loop handle (length (a ++ b)) (a ++ b) s
        ≡ resume (length (a ++ b)) b (frames_loop handle (length a) a s)
  frames_loop-append a b s =
      loop-append (length a) (length (a ++ b)) a b s (omega arith) (omega arith)
