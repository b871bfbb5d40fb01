-- ===== src/Frame/Codec.antt =====
-- Encoding and decoding of headers undo one another.
use reactos_luagent.Base.{
  ℕ, ◌<◌, ◌≡◌, refl, [], ◌∷◌, ◌++◌, Bytes, IsBytes, length, take, some, arith, length-append, ◌≢◌,
  ◌↔◌, ◌≤◌, ◌∙◌, ap, bytes_eq→≡,
}
use reactos_luagent.Frame.{
  FrameHeader, need_more, ok, frame_header_size, read_u32le, write_u32le, magic,
  frame_encode_header, magic_size, header_at, frame_decode_header, IsTyped, IsValid,
}

pub read-write_u32le :
    (v : ℕ) (rest : Bytes) → v < 4294967296 → read_u32le (write_u32le v ++ rest) ≡ v
unfolding read_u32le write_u32le
read-write_u32le v rest h = omega arith

-- The 14 bytes that `frame_encode_header` writes.
abbrev pub wire : FrameHeader → Bytes
wire h = magic ++ h.type ∷ h.flags ∷ (write_u32le h.req_id ++ write_u32le h.length)

encode-eq-wire :
    (h : FrameHeader) → IsValid h → frame_encode_header frame_header_size h ≡ some (wire h)
unfolding frame_encode_header
encode-eq-wire h v = ground arith

wire-IsBytes : (h : FrameHeader) → IsTyped h → IsBytes (wire h)
unfolding write_u32le
wire-IsBytes h t = omega arith

header_at-wire : (h : FrameHeader) (rest : Bytes) → IsTyped h → header_at (wire h ++ rest) ≡ h
unfolding header_at write_u32le
header_at-wire h rest t = ground arith

pub decode-wire :
    (h : FrameHeader) (rest : Bytes)
    → IsTyped h
    → IsValid h
    → frame_decode_header (wire h ++ rest) ≡ ok h
unfolding frame_decode_header write_u32le
decode-wire h rest t v = ground (arith, header_at-wire h rest t)

-- A header with fields of the C types that passes validation is encoded in 14 bytes, and these,
-- whatever follows them, are decoded to the same header.
pub decode-encode :
    (h : FrameHeader) (rest : Bytes)
    → IsTyped h
    → IsValid h
    → (out : Bytes) × (frame_encode_header frame_header_size h ≡ some out)
      × (length out ≡ frame_header_size)
      × IsBytes out
      × (frame_decode_header (out ++ rest) ≡ ok h)
decode-encode h rest t v = (
  wire h,
  encode-eq-wire h v,
  unfold write_u32le in refl,
  wire-IsBytes h t,
  decode-wire h rest t v,
)

read_u32le-lt :
    (a b c d : ℕ) (rest : Bytes)
    → a < 256
    → b < 256
    → c < 256
    → d < 256
    → read_u32le (a ∷ b ∷ c ∷ d ∷ rest) < 4294967296
unfolding read_u32le
read_u32le-lt a b c d rest ha hb hc hd = omega arith

-- The four bytes of a list, read and written again.
write-read_u32le :
    (a b c d : ℕ) (rest : Bytes)
    → a < 256
    → b < 256
    → c < 256
    → d < 256
    → write_u32le (read_u32le (a ∷ b ∷ c ∷ d ∷ rest)) ≡ a ∷ b ∷ c ∷ d ∷ []
unfolding read_u32le write_u32le
write-read_u32le a b c d rest ha hb hc hd = ground arith

decode-ok :
    (src : Bytes) (h : FrameHeader)
    → frame_decode_header src ≡ ok h
    → (frame_header_size ≤ length src)
      × (take magic_size src ≡ magic)
      × (header_at src ≡ h)
      × IsValid h
unfolding frame_decode_header
decode-ok src h e = ground (arith, bytes_eq→≡ (take magic_size src) magic)

ok-decode :
    (src : Bytes)
    → frame_header_size ≤ length src
    → take magic_size src ≡ magic
    → IsValid (header_at src)
    → frame_decode_header src ≡ ok (header_at src)
unfolding frame_decode_header
ok-decode src l m v = rw m (ground arith)

decode-need_more :
    (src : Bytes) → (frame_decode_header src ≡ need_more) ↔ (length src < frame_header_size)
unfolding frame_decode_header
decode-need_more src = (λ e. ground arith, λ h. ground arith)

-- What `frame_decode_header` answers, by the input alone: it asks for more exactly below 14 bytes,
-- and accepts exactly the inputs that start with the magic and hold a valid header.
pub decode_cases :
    (src : Bytes) (h : FrameHeader)
    → ((frame_decode_header src ≡ need_more) ↔ (length src < frame_header_size))
      × ((frame_decode_header src ≡ ok h) ↔ (
          (frame_header_size ≤ length src)
          × (take magic_size src ≡ magic)
          × (header_at src ≡ h)
          × IsValid h))
decode_cases src h = (
  decode-need_more src,
  (decode-ok src h, λ r. rw (← r.2) (ok-decode src r.0 r.1 (rw (← r.2) at r.3))),
)

-- On 14 bytes or more that start with the magic, `header_at` loses nothing.
wire-header_at :
    (src : Bytes)
    → IsBytes src
    → frame_header_size ≤ length src
    → take magic_size src ≡ magic
    → IsTyped (header_at src) × (wire (header_at src) ≡ take frame_header_size src)
unfolding header_at
wire-header_at (m ∷ a ∷ g ∷ i ∷ t ∷ f ∷ r ∷ s ∷ u ∷ v ∷ k ∷ l ∷ n ∷ o ∷ rest) b len mag = ground (
  arith,
  write-read_u32le r s u v (k ∷ l ∷ n ∷ o ∷ rest),
  write-read_u32le k l n o rest,
  read_u32le-lt r s u v (k ∷ l ∷ n ∷ o ∷ rest),
  read_u32le-lt k l n o rest,
)
wire-header_at src b len mag = absurd (omega arith)

-- Whatever bytes are accepted, the header has fields of the C types and passes validation, and
-- encoding it writes the first 14 bytes again.
pub encode-decode :
    (src : Bytes) (h : FrameHeader)
    → IsBytes src
    → frame_decode_header src ≡ ok h
    → IsTyped h
      × IsValid h
      × (frame_encode_header frame_header_size h ≡ some (take frame_header_size src))
encode-decode src h b e =
    let (len, mag, at, valid) = decode-ok src h e in
    let (typed, same) = wire-header_at src b len mag in
    rw (← at) (
      typed,
      rw (← at) at valid,
      encode-eq-wire (header_at src) (rw (← at) at valid) ∙ ap some same,
    )

-- Whatever is encoded takes 14 bytes.
pub length-encode :
    (h : FrameHeader) (out : Bytes)
    → frame_encode_header frame_header_size h ≡ some out
    → length out ≡ frame_header_size
unfolding frame_encode_header
length-encode h out e = ground arith

-- Decoding looks at the first 14 bytes only.
header_at-append :
    (a b : Bytes)
    → frame_header_size ≤ length a
    → (header_at (a ++ b) ≡ header_at a) × (take magic_size (a ++ b) ≡ take magic_size a)
unfolding header_at read_u32le
header_at-append (m ∷ a ∷ g ∷ i ∷ t ∷ f ∷ r ∷ s ∷ u ∷ v ∷ k ∷ l ∷ n ∷ o ∷ rest) b len = (refl, refl)
header_at-append a b len = absurd (omega arith)

pub decode-append :
    (a b : Bytes)
    → frame_header_size ≤ length a
    → frame_decode_header (a ++ b) ≡ frame_decode_header a
unfolding frame_decode_header
decode-append a b len =
    let (at, mag) = header_at-append a b len in ground (arith, at, mag, length-append a b)

pub decode-ne-need_more :
    (a : Bytes) → frame_header_size ≤ length a → frame_decode_header a ≢ need_more
decode-ne-need_more a len e = absurd (omega (arith, (decode-need_more a).0 e))
