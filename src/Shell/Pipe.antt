-- ===== src/Shell/Pipe.antt =====
-- `pipe_output` of hello.c: the output of a program on its way to the terminal.
use reactos_luagent.Base.{
  ℕ, ◌≡◌, refl, sym, ap, ◌∙◌, true, false, ◌==◌, if◌then◌else◌, Bool-cases, inl, inr, List, [], ◌∷◌,
  ◌++◌, Bytes, codes, Option, none, some, append_assoc, append-nil,
}
use reactos_luagent.Transfer.Whole.{joined}
use reactos_luagent.Shell.{
  Trace, wrote, Shell, pure, emit, ◌>>=◌, ◌>>◌, tx_write, tx_writebuf, unless_empty,
}

-- The loop over a buffer, with the bytes from `start` to `i`, and the end of the round.
unfoldable pub pipe_loop : Bytes → Bytes → Shell Unit
pipe_loop segment [] = unless_empty segment (tx_writebuf segment)
pipe_loop segment (b ∷ bs) = elim (b == 10) [
  | true ↦ do
    unless_empty segment (tx_writebuf segment)
    tx_write (codes "\r\n")
    (λ t. pipe_loop [] bs t)
  | false ↦ pipe_loop (segment ++ (b ∷ [])) bs
]

-- The rounds, on what `ReadFile` gives: `none` where it fails.
unfoldable pub pipe_output : List (Option Bytes) → Shell Unit
unfolding pipe_loop
pipe_output [] = pure tt
pipe_output (none ∷ more) = pure tt
pipe_output (some [] ∷ more) = pure tt
pipe_output (some (b ∷ bs) ∷ more) = do pipe_loop [] (b ∷ bs); (λ t. pipe_output more t)

-- What was read before the first failure or the end.
abbrev pub received : List (Option Bytes) → List Bytes
received [] = []
received (none ∷ more) = []
received (some [] ∷ more) = []
received (some (b ∷ bs) ∷ more) = (b ∷ bs) ∷ received more

-- Every line feed with a carriage return before it.
abbrev pub crlf : Bytes → Bytes
crlf [] = []
crlf (b ∷ bs) = (if b == 10 then 13 ∷ 10 ∷ [] else b ∷ []) ++ crlf bs

-- The bytes that went to the terminal.
abbrev pub terminal : Trace → Bytes
terminal [] = []
terminal (wrote text ∷ t) = text ++ terminal t
terminal (e ∷ t) = terminal t

pub terminal-append : (t u : Trace) → terminal (t ++ u) ≡ terminal t ++ terminal u
terminal-append [] u = refl
terminal-append (wrote text ∷ t) u =
    ap (λ r. text ++ r) (terminal-append t u) ∙ sym (append_assoc text (terminal t) (terminal u))
terminal-append (e ∷ t) u = terminal-append t u

crlf-append : (xs ys : Bytes) → crlf (xs ++ ys) ≡ crlf xs ++ crlf ys
crlf-append [] ys = refl
crlf-append (x ∷ xs) ys =
    ap (λ r. (if x == 10 then 13 ∷ 10 ∷ [] else x ∷ []) ++ r) (crlf-append xs ys)
    ∙ sym (append_assoc (if x == 10 then 13 ∷ 10 ∷ [] else x ∷ []) (crlf xs) (crlf ys))

segment_shown :
    (segment : Bytes) (t : Trace)
    → terminal (unless_empty segment (tx_writebuf segment) t).1 ≡ terminal t ++ segment
unfolding pure emit
segment_shown [] t = sym (append-nil (terminal t))
segment_shown (b ∷ bs) t =
    terminal-append t (wrote (b ∷ bs) ∷ []) ∙ ap (λ r. terminal t ++ r) (append-nil (b ∷ bs))

-- The trace after a line feed.
abbrev fed : Bytes → Trace → Trace
fed segment t = (unless_empty segment (tx_writebuf segment) t).1 ++ (wrote (codes "\r\n") ∷ [])

fed_shown :
    (segment : Bytes) (t : Trace)
    → terminal (fed segment t) ≡ terminal t ++ (segment ++ 13 ∷ 10 ∷ [])
fed_shown segment t =
    terminal-append (unless_empty segment (tx_writebuf segment) t).1 (wrote (codes "\r\n") ∷ [])
    ∙ ap (λ r. r ++ 13 ∷ 10 ∷ []) (segment_shown segment t)
    ∙ append_assoc (terminal t) segment (13 ∷ 10 ∷ [])

loop_feed :
    (segment bs : Bytes) (b : ℕ) (t : Trace)
    → (b == 10) ≡ true
    → pipe_loop segment (b ∷ bs) t ≡ pipe_loop [] bs (fed segment t)
unfolding pipe_loop ◌>>=◌
loop_feed segment bs b t feed = rw (pipe_loop, feed) refl

loop_other :
    (segment bs : Bytes) (b : ℕ) (t : Trace)
    → (b == 10) ≡ false
    → pipe_loop segment (b ∷ bs) t ≡ pipe_loop (segment ++ (b ∷ [])) bs t
unfolding pipe_loop
loop_other segment bs b t other = rw (pipe_loop, other) refl

loop_shown :
    (segment bs : Bytes) (t : Trace)
    → terminal (pipe_loop segment bs t).1 ≡ terminal t ++ (segment ++ crlf bs)
loop_shown segment [] t =
    unfold pipe_loop in
    segment_shown segment t ∙ ap (λ r. terminal t ++ r) (sym (append-nil segment))
loop_shown segment (b ∷ bs) t = elim (Bool-cases (b == 10)) [
  | inl feed ↦
      rw (loop_feed segment bs b t feed, feed, loop_shown [] bs (fed segment t))
        (ap (λ r. r ++ crlf bs) (fed_shown segment t)
          ∙ append_assoc (terminal t) (segment ++ 13 ∷ 10 ∷ []) (crlf bs)
          ∙ ap (λ r. terminal t ++ r) (append_assoc segment (13 ∷ 10 ∷ []) (crlf bs)))
  | inr other ↦
      rw (loop_other segment bs b t other, other, loop_shown (segment ++ (b ∷ [])) bs t)
        (ap (λ r. terminal t ++ r) (append_assoc segment (b ∷ []) (crlf bs)))
]

-- The program's output reaches the terminal with each line feed turned into carriage return and line
-- feed, wherever the reads of the pipe cut it.
pub pipe_output-crlf :
    (reads : List (Option Bytes)) (t : Trace)
    → terminal (pipe_output reads t).1 ≡ terminal t ++ crlf (joined (received reads))
unfolding pipe_output ◌>>=◌
pipe_output-crlf [] t = sym (append-nil (terminal t))
pipe_output-crlf (none ∷ more) t = sym (append-nil (terminal t))
pipe_output-crlf (some [] ∷ more) t = sym (append-nil (terminal t))
pipe_output-crlf (some (b ∷ bs) ∷ more) t =
    pipe_output-crlf more _
    ∙ ap (λ r. r ++ crlf (joined (received more))) (loop_shown [] (b ∷ bs) t)
    ∙ append_assoc (terminal t) (crlf (b ∷ bs)) (crlf (joined (received more)))
    ∙ ap (λ r. terminal t ++ r) (sym (crlf-append (b ∷ bs) (joined (received more))))
