-- ===== src/Client/Wires.antt =====
-- The frames that tests/host_client/client.c builds, as src/frame.c reads them.
use reactos_luagent.Base.{
  ℕ, ◌+◌, ◌<◌, ◌≤◌, ◌≡◌, ◌≢◌, refl, sym, ap, ◌∙◌, List, [], ◌∷◌, ◌++◌, Bytes, length, take, drop,
  take-append, drop-append, length-append, subst, append_assoc, arith, All,
}
use reactos_luagent.Libc.{to_u32}
use reactos_luagent.Frame.{
  magic, FrameHeader, ok, IsTyped, IsValid, frame_decode_header, frame_header_size,
  max_frame_payload, write_u32le,
}
use reactos_luagent.Frame.Codec.{wire, decode-wire}
use reactos_luagent.Client.{header, req_id}

-- A frame of the client, its type and payload.
abbrev pub Sent : Type 0
Sent = ℕ × Bytes

abbrev pub head : Sent → FrameHeader
head (type, payload) = record { type = type; flags = 0; req_id = req_id; length = length payload }

-- The server reads these frames, one after another, and nothing else.
abbrev pub Decodes : Bytes → List Sent → Type 0
Decodes out [] = out ≡ []
Decodes out (f ∷ fs) =
    (frame_decode_header out ≡ ok (head f))
    × (take (length f.1) (drop frame_header_size out) ≡ f.1)
    × Decodes (drop (frame_header_size + length f.1) out) fs

abbrev pub stream : List Sent → Bytes
stream [] = []
stream (f ∷ fs) = (header f.0 req_id (length f.1) ++ f.1) ++ stream fs

-- A type of one byte that is not 0, and a payload that the server allows.
pub record IsSendable (f : Sent) : Type 0 where
  pub type_u8 : f.0 < 256
  pub type_nonzero : f.0 ≢ 0
  pub fits : length f.1 ≤ max_frame_payload

head-IsTyped : (f : Sent) → IsSendable f → IsTyped (head f)
head-IsTyped f s = record {
  type_u8 = s.type_u8;
  flags_u8 = omega arith;
  req_id_u32 = omega arith;
  length_u32 = omega (arith, s.fits);
}

head-IsValid : (f : Sent) → IsSendable f → IsValid (head f)
head-IsValid f s = record { length_bound = s.fits; type_nonzero = s.type_nonzero }

header-wire : (f : Sent) → IsSendable f → header f.0 req_id (length f.1) ≡ wire (head f)
header-wire f s = ap (λ n. magic ++ f.0 ∷ 0 ∷ (write_u32le req_id ++ write_u32le n)) small
  where
    small : to_u32 (length f.1) ≡ length f.1
    small = omega (arith, s.fits)

pub length-header : (type id n : ℕ) → length (header type id n) ≡ frame_header_size
unfolding write_u32le
length-header type id n = refl

-- What stands behind the header, and behind the payload.
after_header :
    (h p s : Bytes) → length h ≡ frame_header_size → drop frame_header_size ((h ++ p) ++ s) ≡ p ++ s
after_header h p s e =
    ap (λ x. drop frame_header_size x) (append_assoc h p s)
    ∙ drop-append frame_header_size h (p ++ s) e

after_payload :
    (h p s : Bytes)
    → length h ≡ frame_header_size
    → drop (frame_header_size + length p) ((h ++ p) ++ s) ≡ s
after_payload h p s e =
    drop-append (frame_header_size + length p) (h ++ p) s
      (length-append h p ∙ ap (λ n. n + length p) e)

head_decodes :
    (f : Sent) (rest : Bytes)
    → IsSendable f
    → frame_decode_header ((header f.0 req_id (length f.1) ++ f.1) ++ rest) ≡ ok (head f)
head_decodes f rest s =
    ap (λ h. frame_decode_header ((h ++ f.1) ++ rest)) (header-wire f s)
    ∙ ap (λ x. frame_decode_header x) (append_assoc (wire (head f)) f.1 rest)
    ∙ decode-wire (head f) (f.1 ++ rest) (head-IsTyped f s) (head-IsValid f s)

pub stream-Decodes : (fs : List Sent) → All IsSendable fs → Decodes (stream fs) fs
stream-Decodes [] a = refl
stream-Decodes (f ∷ fs) (s, a) = (
  head_decodes f (stream fs) s,
  ap (λ x. take (length f.1) x)
        (after_header (front f) f.1 (stream fs) (length-header f.0 req_id (length f.1)))
      ∙ take-append (length f.1) f.1 (stream fs) refl,
  subst (λ x. Decodes x fs)
      (sym (after_payload (front f) f.1 (stream fs) (length-header f.0 req_id (length f.1))))
      (stream-Decodes fs a),
)
  where
    front : Sent → Bytes
    front f = header f.0 req_id (length f.1)

pub stream-append : (fs gs : List Sent) → stream (fs ++ gs) ≡ stream fs ++ stream gs
stream-append [] gs = refl
stream-append (f ∷ fs) gs =
    ap (λ s. (header f.0 req_id (length f.1) ++ f.1) ++ s) (stream-append fs gs)
    ∙ sym (append_assoc (header f.0 req_id (length f.1) ++ f.1) (stream fs) (stream gs))
