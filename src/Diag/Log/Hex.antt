-- ===== src/Diag/Log/Hex.antt =====
-- The dump of a frame in src/diag.c: what the loop of `diag_wire` puts into its buffer.
use reactos_luagent.Base.{
  ℕ, zero, suc, ◌+◌, ◌*◌, ◌<◌, ◌≡◌, refl, true, [], ◌∷◌, ◌++◌, Bytes, codes, length, take, some,
  arith, Option, ◌≤◌, sym, ap, ◌∙◌, take-append_le, append_assoc, length-append,
}
use reactos_luagent.Libc.{decimal}
use reactos_luagent.Frame.{FrameType}
use reactos_luagent.Protocol.{protocol_type_name}
use reactos_luagent.Diag.Levels.{level_debug, level_trace, wire_mode_hex}
use reactos_luagent.Diag.Log.{
  Files, LogState, Entry, log_line, hex_byte, hex_loop, diag_log, diag_wire,
}
use reactos_luagent.Diag.Log.Sequence.{log_all}

-- Bytes in hexadecimal.
abbrev pub hexed : Bytes → Bytes
hexed [] = []
hexed (b ∷ bs) = hex_byte b ++ hexed bs

hex_loop-take :
    (bs : Bytes) (at left : ℕ) → at + 3 * left ≡ 1020 → hex_loop at bs ≡ hexed (take left bs)
unfolding hex_loop
hex_loop-take [] at zero e = refl
hex_loop-take [] at (suc left) e = refl
hex_loop-take (b ∷ bs) at zero e = ground arith
hex_loop-take (b ∷ bs) at (suc left) e =
    ground (arith, hex_loop-take bs (at + 3) left (omega (arith, e)))

hexed_fits : (left : ℕ) (bs : Bytes) → length (hexed (take left bs)) < 3 * left + 1
hexed_fits zero bs = omega arith
hexed_fits (suc left) [] = omega arith
hexed_fits (suc left) (b ∷ bs) = omega (arith, hexed_fits left bs)

-- The two entries for a frame.
abbrev pub summary_entry : Bytes → Entry → Bytes → ℕ → Entry
summary_entry dir e name payload_len = record e {
  level = level_debug;
  subsystem = some (codes "frame");
  message = dir ++ (codes " type=" ++ (name ++ (codes " len=" ++ decimal payload_len)));
}

-- The text of a dump, as the `msg` of `diag_log` has room for it.
abbrev pub dump_entry : Bytes → Entry → Bytes → Entry
dump_entry dir e bytes = record e {
  level = level_trace;
  subsystem = some (codes "frame");
  message = take 1023 (dir ++ (codes " raw=" ++ hexed bytes));
}

take-take : (n : ℕ) (xs : Bytes) → take n (take n xs) ≡ take n xs
take-take zero xs = refl
take-take (suc n) [] = refl
take-take (suc n) (x ∷ xs) = ap (λ l. x ∷ l) (take-take n xs)

-- Of a text only the bytes that are dumped in time are seen.
cut_hexed :
    (n k : ℕ) (p bs : Bytes)
    → n < length p + 3 * k + 1
    → take n (p ++ hexed (take k bs)) ≡ take n (p ++ hexed bs)
cut_hexed n zero p bs room =
    let first : n ≤ length p = omega (arith, room) in
    take-append_le n p [] first ∙ sym (take-append_le n p (hexed bs) first)
cut_hexed n (suc k) p [] room = refl
cut_hexed n (suc k) p (b ∷ bs) room =
    ap (λ l. take n l) (sym (append_assoc p (hex_byte b) (hexed (take k bs))))
    ∙ cut_hexed n k (p ++ hex_byte b) bs (omega (arith, length-append p (hex_byte b), room))
    ∙ ap (λ l. take n l) (append_assoc p (hex_byte b) (hexed bs))

-- What is left of the dump in `msg` is left of that of the whole frame.
dump_cut :
    (dir bs : Bytes)
    → take 1023 (dir ++ (codes " raw=" ++ hex_loop 0 bs))
      ≡ take 1023 (take 1023 (dir ++ (codes " raw=" ++ hexed bs)))
dump_cut dir bs =
    ap (λ h. take 1023 (dir ++ (codes " raw=" ++ h))) (hex_loop-take bs 0 340 (omega arith))
    ∙ ap (λ l. take 1023 l) (sym (append_assoc dir (codes " raw=") (hexed (take 340 bs))))
    ∙ cut_hexed 1023 340 (dir ++ codes " raw=") bs
        (omega (arith, length-append dir (codes " raw=")))
    ∙ ap (λ l. take 1023 l) (append_assoc dir (codes " raw=") (hexed bs))
    ∙ sym (take-take 1023 (dir ++ (codes " raw=" ++ hexed bs)))

-- A message is logged up to its first 1023 bytes.
diag_log-cut :
    (files : Files) (e : Entry) (m m' : Bytes) (g : LogState)
    → take 1023 m ≡ take 1023 m'
    → diag_log files (record e { message = m }) g ≡ diag_log files (record e { message = m' }) g
unfolding diag_log log_line
diag_log-cut files e m m' g same = rw same refl

pub diag_wire_dumps :
    (files : Files) (dir : Bytes) (e : Entry) (type : Option FrameType) (payload_len : ℕ)
    (frame : Bytes) (g : LogState)
    → g.initialized ≡ true
    → g.wire_mode ≡ wire_mode_hex
    → (diag_wire files dir e type payload_len (some frame) g
        ≡ log_all files
            (summary_entry dir e (codes (protocol_type_name type)) payload_len
              ∷ dump_entry dir e frame
              ∷ [])
            g)
      × (length (hex_loop 0 frame) < 1024)
unfolding diag_wire log_all
diag_wire_dumps files dir e type payload_len frame g init hex =
    let logged = dump_entry dir e frame in
    (
      grind (
        arith,
        diag_log-cut files logged (dir ++ (codes " raw=" ++ hex_loop 0 frame)) logged.message
            (diag_log files (summary_entry dir e (codes (protocol_type_name type)) payload_len) g)
            (dump_cut dir frame),
      ),
      omega (
        arith,
        ap (λ (h : Bytes). length h) (hex_loop-take frame 0 340 (omega arith)),
        hexed_fits 340 frame,
      ),
    )
