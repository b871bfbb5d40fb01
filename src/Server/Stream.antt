-- ===== src/Server/Stream.antt =====
-- A stream of encoded frames is handled frame by frame.
use reactos_luagent.Base.{
  ℕ, zero, suc, ◌+◌, ◌<◌, ◌≤◌, ◌≡◌, refl, ap, ◌⊎◌, inl, inr, List, [], ◌∷◌, ◌++◌, Bytes, All,
  length, length-append, take-append, drop-append, append_assoc, Option, none, some, arith,
  le→not-ltb, lt→ltb, ltb, ltb→lt, not-ltb→le, Bool-cases,
}
use reactos_luagent.Frame.{
  FrameHeader, ok, frame_header_size, frame_encode_header, frame_decode_header, IsTyped, IsValid,
}
use reactos_luagent.Frame.Codec.{decode-encode}
use reactos_luagent.Machine.{State, Action, Rc, ◌>>=◌, ◌>>◌, pure}
use reactos_luagent.Diag.{count_with, frame_rx, diag_count_frame_rx}
use reactos_luagent.Server.{frame_round, frames_loop}
use reactos_luagent.Server.Deframe.{loop_short, loop_round}

pub record Frame : Type 0 where
  pub header : FrameHeader
  pub payload : Bytes

-- A frame that a correct client may send.
pub record IsSendable (f : Frame) : Type 0 where
  pub typed : IsTyped f.header
  pub valid : IsValid f.header
  pub sized : length f.payload ≡ f.header.length

-- The bytes of a frame, and of frames one after the other.
abbrev pub after_header : Bytes → Option Bytes → Bytes
after_header payload none = []
after_header payload (some head) = head ++ payload

abbrev pub frame_wire : Frame → Bytes
frame_wire f = after_header f.payload (frame_encode_header frame_header_size f.header)

abbrev pub wires : List Frame → Bytes
wires [] = []
wires (f ∷ fs) = frame_wire f ++ wires fs

-- No complete frame.
abbrev pub IsPartial : Bytes → Type 0
IsPartial tail =
    (length tail < frame_header_size)
    ⊎ ((h : FrameHeader) × (frame_decode_header tail ≡ ok h)
        × (length tail < frame_header_size + h.length))

module _ (handle : FrameHeader → Bytes → Action Rc) where
  -- Every frame is counted and handled, in order.
  unfoldable pub run_frames : List Frame → Action Unit
  run_frames [] = pure tt
  run_frames (f ∷ fs) = do
    diag_count_frame_rx (frame_header_size + f.header.length)
    handle f.header f.payload
    run_frames fs

  pub loop_partial :
      (fuel : ℕ) (tail : Bytes) (s : State)
      → IsPartial tail
      → frames_loop handle fuel tail s ≡ (some tail, s)
  unfolding frame_round pure
  loop_partial fuel tail s (inl short) = loop_short handle fuel tail s short
  loop_partial zero tail s (inr (h, e, less)) = unfold frames_loop in refl
  loop_partial (suc fuel) tail s (inr (h, e, less)) =
      elim (Bool-cases (ltb (length tail) frame_header_size)) [
        | inl short ↦ loop_short handle (suc fuel) tail s (ltb→lt _ _ short)
        | inr long ↦
            rw (loop_round handle fuel tail s (not-ltb→le _ _ long), e, lt→ltb _ _ less) refl
      ]

  -- One frame, by its encoded header.
  loop_encoded :
      (fuel : ℕ) (f : Frame) (head rest : Bytes) (s : State)
      → length head ≡ frame_header_size
      → length f.payload ≡ f.header.length
      → frame_decode_header (head ++ (f.payload ++ rest)) ≡ ok f.header
      → frames_loop handle (suc fuel) (head ++ (f.payload ++ rest)) s
        ≡ frames_loop handle fuel rest
            (handle f.header f.payload
              (count_with (frame_rx (frame_header_size + f.header.length)) s).1).1
  unfolding frame_round ◌>>=◌
  loop_encoded fuel f head rest s len sized e =
      let total = length-append head (f.payload ++ rest) in
      let inner = length-append f.payload rest in
      rw
        (
          loop_round handle fuel (head ++ (f.payload ++ rest)) s (omega (arith, total)),
          e,
          le→not-ltb (length (head ++ (f.payload ++ rest))) (frame_header_size + f.header.length)
              (omega (arith, total, inner)),
          drop-append frame_header_size head (f.payload ++ rest) len,
          take-append f.header.length f.payload rest sized,
          ← append_assoc head f.payload rest,
          drop-append (frame_header_size + f.header.length) (head ++ f.payload) rest
              (omega (arith, length-append head f.payload)),
        )
        refl

  loop_frame :
      (fuel : ℕ) (f : Frame) (rest : Bytes) (s : State)
      → IsSendable f
      → (frame_header_size ≤ length (frame_wire f))
        × (frames_loop handle (suc fuel) (frame_wire f ++ rest) s
            ≡ frames_loop handle fuel rest
                (handle f.header f.payload
                  (count_with (frame_rx (frame_header_size + f.header.length)) s).1).1)
  loop_frame fuel f rest s sendable =
      let (head, enc, len, bytes, dec) =
        decode-encode f.header (f.payload ++ rest) sendable.typed sendable.valid in
      rw enc (
        omega (arith, length-append head f.payload),
        rw (append_assoc head f.payload rest)
            (loop_encoded fuel f head rest s len sendable.sized dec),
      )

  loop_frames :
      (fuel : ℕ) (fs : List Frame) (tail : Bytes) (s : State)
      → All IsSendable fs
      → IsPartial tail
      → length (wires fs ++ tail) ≤ fuel
      → frames_loop handle fuel (wires fs ++ tail) s ≡ (some tail, (run_frames fs s).1)
  unfolding run_frames ◌>>=◌
  loop_frames fuel [] tail s fine partial enough = loop_partial fuel tail s partial
  loop_frames zero (f ∷ fs) tail s fine partial enough = absurd (
      omega (
        arith,
        (loop_frame zero f (wires fs) s fine.0).0,
        length-append (frame_wire f) (wires fs),
        length-append (wires (f ∷ fs)) tail,
      ))
  loop_frames (suc fuel) (f ∷ fs) tail s fine partial enough =
      let (long, first) = loop_frame fuel f (wires fs ++ tail) s fine.0 in
      rw (append_assoc (frame_wire f) (wires fs) tail, first)
        (loop_frames fuel fs tail _ fine.1 partial (
          omega (
            arith,
            long,
            length-append (frame_wire f) (wires fs ++ tail),
            ap length (append_assoc (frame_wire f) (wires fs) tail),
          )))

  -- Of a stream of encoded frames and an incomplete one behind them, the loop handles each frame
  -- once, in order and with its payload, and leaves the incomplete one. Its fuel is enough.
  pub frames_loop-wires :
      (fs : List Frame) (tail : Bytes) (s : State)
      → All IsSendable fs
      → IsPartial tail
      → frames_loop handle (length (wires fs ++ tail)) (wires fs ++ tail) s
        ≡ (some tail, (run_frames fs s).1)
  frames_loop-wires fs tail s fine partial = loop_frames _ fs tail s fine partial (omega arith)
