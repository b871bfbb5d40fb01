-- ===== src/Shell.antt =====
-- The serial shell of hello.c: its transport, and the reading of a line. Windows answers each call by
-- any function of the calls before.
pub mod Commands
pub mod Start
pub mod Pipe
pub mod Handles
pub mod Script
pub mod Overread
pub mod Screen
pub mod Terminal
use reactos_luagent.Base.{
  ℕ, zero, suc, ◌+◌, ◌-◌, ◌%◌, ◌^◌, Bool, true, false, ◌||◌, ◌==◌, ltb, if◌then◌else◌, List, [],
  ◌∷◌, ◌++◌, Bytes, codes, length, take, Option, none, some,
}

pub data Handle : Type 0 where
  read_end write_end nul process thread drain transport : Handle

-- What the shell does, in order: `wrote` are bytes to the terminal, and `overread` a write of a
-- buffer that has no NUL.
pub data Event : Type 0 where
  wrote : Bytes → Event
  overread : Event
  debug : Bytes → Event
  set_directory : Bytes → Event
  get_directory : Event
  set_variable : Bytes → Bytes → Event
  create_pipe : Event
  open_nul : Event
  create_process : Bytes → Event
  create_thread : Event
  wait_process wait_thread : Event
  terminate_process : Event
  close_handle : Handle → Event
  open_com2 configure_com2 get_std_handles : Event

abbrev pub Trace : Type 0
Trace = List Event

-- The events so far, and behind them those of an action.
abbrev pub Shell : Type 0 → Type 0
Shell A = Trace → A × Trace

unfoldable pub pure : {A : Type 0} → A → Shell A
pure a t = (a, t)

unfoldable pub emit : Event → Shell Unit
emit e t = (tt, t ++ (e ∷ []))

unfoldable pub ask : {A : Type 0} → Event → (Trace → A) → Shell A
ask e answer t = (answer t, t ++ (e ∷ []))

infixl 5 ◌>>=◌ ◌>>◌
unfoldable pub ◌>>=◌ : {A B : Type 0} → Shell A → (A → Shell B) → Shell B
unfolding pure emit ask
◌>>=◌ m f t = let (a, t') = m t in f a t'

abbrev pub ◌>>◌ : {A B : Type 0} → Shell A → Shell B → Shell B
m >> k = m >>= λ _. k

abbrev pub when : Bool → Shell Unit → Shell Unit
when c m = if c then m else pure tt

-- A text with its NUL, and a buffer.
abbrev pub tx_write : Bytes → Shell Unit
tx_write s = emit (wrote s)

abbrev pub tx_writebuf : Bytes → Shell Unit
tx_writebuf buf = emit (wrote buf)

-- What `ReadFile` gives, call by call: a byte, or nothing in its time.
abbrev pub Input : Type 0
Input = List (Option ℕ)

-- A round of `tx_read1` that read nothing, with the `ticks` before it.
unfoldable pub read_nothing : ℕ → Shell Unit
read_nothing ticks =
    when ((ticks + 1) % 2 ^ 32 % 5 == 0) (emit (debug (codes "serial-shell: waiting for input\n")))

pub data Key : Type 0 where
  ends erases types : Key

abbrev pub key : ℕ → Key
key c = if c == 13 || c == 10 then ends else if c == 8 || c == 127 then erases else types

abbrev pub drop_last : Bytes → Bytes
drop_last line = take (length line - 1) line

abbrev pub is_empty : Bytes → Bool
is_empty [] = true
is_empty (b ∷ bs) = false

-- A line that was read, with the input behind it; or the shell waits for more input, for ever in
-- `tx_read1`.
pub data ReadLine : Type 0 where
  read : Bytes → Input → ReadLine
  waits : ReadLine

abbrev pub unless_empty : Bytes → Shell Unit → Shell Unit
unless_empty line m = if is_empty line then pure tt else m

-- The loop of `repl_readline` with the first `pos` bytes of its buffer, and of `tx_read1` with its
-- ticks. A full buffer ends it too.
unfoldable pub readline_loop : ℕ → Bytes → ℕ → Input → Shell ReadLine
readline_loop max line ticks [] = pure (if ltb (length line) (max - 1) then waits else read line [])
readline_loop max line ticks (none ∷ rest) = elim (ltb (length line) (max - 1)) [
  | false ↦ pure (read line (none ∷ rest))
  | true ↦ do read_nothing ticks; (λ t. readline_loop max line (ticks + 1) rest t)
]
readline_loop max line ticks (some c ∷ rest) = elim (ltb (length line) (max - 1)) [
  | false ↦ pure (read line (some c ∷ rest))
  | true ↦ elim (key c) [
    | ends ↦ do unless_empty line (tx_write (codes "\r\n")); pure (read line rest)
    | erases ↦ do
      unless_empty line (tx_write (8 ∷ 32 ∷ 8 ∷ []))
      (λ t. readline_loop max (drop_last line) 0 rest t)
    | types ↦ do tx_writebuf (c ∷ []); (λ t. readline_loop max (line ++ (c ∷ [])) 0 rest t)
  ]
]

abbrev pub repl_readline : ℕ → Input → Shell ReadLine
repl_readline max input = readline_loop max [] 0 input
