-- ===== src/Libc.antt =====
-- The functions of the C standard library that src/*.c calls on text. A C string is the list of
-- its bytes before the NUL.
pub mod Decimal
use reactos_luagent.Base.{
  ℕ, zero, suc, ◌+◌, ◌-◌, ◌*◌, ◌/◌, ◌%◌, ◌^◌, Bool, true, false, ◌&&◌, ◌||◌, ◌==◌, ltb, leb,
  if◌then◌else◌, List, [], ◌∷◌, ◌++◌, Bytes, length, Option, none, some, ℤ, pos, negsuc,
}

-- The C string that starts a buffer with a NUL behind it.
unfoldable pub c_string : Bytes → Bytes
c_string [] = []
c_string (b ∷ bs) = if b == 0 then [] else b ∷ c_string bs

-- The suffix that starts at the first `c`; `none` for NULL.
unfoldable pub strchr : ℕ → Bytes → Option Bytes
strchr c [] = none
strchr c (b ∷ bs) = if b == c then some (b ∷ bs) else strchr c bs

-- How many bytes stand before the first one that `reject` holds of.
unfoldable pub strcspn : (ℕ → Bool) → Bytes → ℕ
strcspn reject [] = 0
strcspn reject (b ∷ bs) = if reject b then 0 else suc (strcspn reject bs)

-- `uint64_t` arithmetic
abbrev pub u64_mod : ℕ
u64_mod = 2 ^ 64

abbrev pub add_u64 : ℕ → ℕ → ℕ
add_u64 a b = (a + b) % u64_mod

abbrev pub sub_u64 : ℕ → ℕ → ℕ
sub_u64 a b = (a + u64_mod - b) % u64_mod

abbrev pub to_u32 : ℕ → ℕ
to_u32 a = a % 2 ^ 32

abbrev pub is_digit : ℕ → Bool
is_digit c = leb b'0' c && leb c b'9'

-- `isspace` in the C locale.
abbrev pub is_space : ℕ → Bool
is_space c = c == 32 || (leb 9 c && leb c 13)

unfoldable pub skip_space : Bytes → Bytes
skip_space [] = []
skip_space (c ∷ cs) = if is_space c then skip_space cs else c ∷ cs

-- The digits at the front, added to the value so far, and what follows them.
unfoldable pub read_digits : ℕ → Bytes → ℕ × Bytes
read_digits acc [] = (acc, [])
read_digits acc (c ∷ cs) =
    let rest = read_digits (acc * 10 + (c - b'0')) cs in if is_digit c then rest else (acc, c ∷ cs)

-- `strtoul` at base 10, where it converts something and errno stays 0: the value and `*end`.
-- The value is one of an unsigned type with `max` as its largest; `-` negates it in that type.
unfoldable pub unsigned_value : ℕ → Bool → Bytes → Option (ℕ × Bytes)
unsigned_value max negative [] = none
unsigned_value max negative (c ∷ cs) =
    let (v, rest) = read_digits 0 (c ∷ cs) in
    if is_digit c
    then if ltb max v then none else some (if negative then (max + 1 - v) % (max + 1) else v, rest)
    else none

unfoldable pub signed_digits : ℕ → Bytes → Option (ℕ × Bytes)
unfolding unsigned_value
signed_digits max [] = none
signed_digits max (c ∷ cs) =
    if c == b'-'
    then unsigned_value max true cs
    else if c == b'+'
    then unsigned_value max false cs
    else unsigned_value max false (c ∷ cs)

unfoldable pub strtoul : ℕ → Bytes → Option (ℕ × Bytes)
unfolding skip_space signed_digits read_digits
strtoul max s = signed_digits max (skip_space s)

-- `strtoull` gives a `uint64_t`.
abbrev pub ullong_max : ℕ
ullong_max = 2 ^ 64 - 1

-- `%u` and `%llu`: the digits of a number below 10 ^ 20, which every `uint64_t` is.
unfoldable pub digits_loop : ℕ → ℕ → Bytes → Bytes
digits_loop zero n out = out
digits_loop (suc k) n out =
    let more = digits_loop k (n / 10) ((b'0' + n % 10) ∷ out) in
    if ltb n 10 then (b'0' + n) ∷ out else more

unfoldable pub decimal : ℕ → Bytes
decimal n = digits_loop 20 n []

-- `%lld`
unfoldable pub signed_decimal : ℤ → Bytes
signed_decimal (pos n) = decimal n
signed_decimal (negsuc n) = b'-' ∷ decimal (n + 1)
