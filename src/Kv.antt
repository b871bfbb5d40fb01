-- ===== src/Kv.antt =====
-- The `key=value` payloads: `kv_value` and the functions over it, which src/transfer.c and
-- src/proc.c each define.
pub mod Lines
pub mod Numbers
pub mod Keys
pub mod Render
use reactos_luagent.Base.{
  ℕ, zero, suc, ◌+◌, ◌-◌, Bool, true, false, ◌&&◌, ◌||◌, ◌==◌, ltb, if◌then◌else◌, [], ◌∷◌, Bytes,
  codes, bytes_eq, length, get_or, take, drop, Option, none, some,
}
use reactos_luagent.Libc.{strchr, strcspn, strtoul, ullong_max, to_u32}

-- `line_len`: up to the newline, or up to the end of the text.
abbrev pub line_length : Bytes → ℕ
line_length line = elim (strchr b'\n' line) [
  | none ↦ length line
  | some line_end ↦ length line - length line_end
]

-- The test on one line, the first of the text.
unfoldable pub line_matches : Bytes → Bytes → Bool
line_matches line key =
    ltb (length key + 1) (line_length line)
    && (bytes_eq (take (length key) line) key && get_or line (length key) 0 == b'=')

-- The loop over the lines. Each round goes past a newline, so the length of the text and one is
-- fuel enough.
unfoldable pub kv_value_loop : ℕ → Bytes → Bytes → Option Bytes
kv_value_loop zero line key = none
kv_value_loop (suc fuel) [] key = none
kv_value_loop (suc fuel) (c ∷ cs) key =
    let line : Bytes = c ∷ cs in
    let next : Option Bytes = elim (strchr b'\n' line) [
      | none ↦ none
      | some line_end ↦ kv_value_loop fuel (drop 1 line_end) key
    ] in
    if line_matches line key then some (drop (length key + 1) line) else next

unfoldable pub kv_value : Bytes → Bytes → Option Bytes
unfolding kv_value_loop
kv_value payload key = kv_value_loop (length payload + 1) payload key

abbrev pub is_eol : ℕ → Bool
is_eol c = c == b'\r' || c == b'\n'

-- What is copied to `dst`, or `none` for -1.
unfoldable pub kv_copy : ℕ → Bytes → Bytes → Option Bytes
unfolding kv_value strcspn
kv_copy dst_size payload key = elim (kv_value payload key) [
  | none ↦ none
  | some value ↦
      let len = strcspn is_eol value in
      if ltb dst_size (len + 1) then none else some (take len value)
]

-- The whole text as a number: `errno != 0 || end == buf || *end != '\0'` is `none`.
abbrev pub all_of : Option (ℕ × Bytes) → Option ℕ
all_of none = none
all_of (some (v, [])) = some v
all_of (some (v, b ∷ bs)) = none

unfoldable pub kv_u64 : Bytes → Bytes → Option ℕ
unfolding kv_copy strtoul
kv_u64 payload key = elim (kv_copy 64 payload key) [
  | none ↦ none
  | some buf ↦ all_of (strtoul ullong_max buf)
]

unfoldable pub kv_u64_default : Bytes → Bytes → ℕ → ℕ
unfolding kv_u64
kv_u64_default payload key default_value = elim (kv_u64 payload key) [
  | none ↦ default_value
  | some out ↦ out
]

unfoldable pub kv_bool_default : Bytes → Bytes → Bool → Bool
unfolding kv_copy
kv_bool_default payload key default_value = elim (kv_copy 16 payload key) [
  | none ↦ default_value
  | some buf ↦ bytes_eq buf (codes "1")
]

-- `unsigned long` is as wide as the platform makes it: `ulong_max` is its largest value.
unfoldable pub kv_u32 : ℕ → Bytes → Bytes → Option ℕ
unfolding kv_copy strtoul
kv_u32 ulong_max payload key = elim (kv_copy 32 payload key) [
  | none ↦ none
  | some buf ↦ elim (all_of (strtoul ulong_max buf)) [
    | none ↦ none
    | some value ↦ some (to_u32 value)
  ]
]
