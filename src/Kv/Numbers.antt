-- ===== src/Kv/Numbers.antt =====
-- Numbers in a payload.
use reactos_luagent.Base.{ℕ, ◌≡◌, ◌≤◌, Bytes, Option, none, some, ◌∙◌, ap}
use reactos_luagent.Libc.{strtoul, decimal, ullong_max}
use reactos_luagent.Libc.Decimal.{strtoul-decimal}
use reactos_luagent.Kv.{kv_copy, kv_u64, all_of}

-- If `kv_copy` finds the decimal text of a `uint64_t` for a key, then `kv_u64` reads that number.
pub kv_u64-decimal :
    (payload key : Bytes) (n : ℕ)
    → n ≤ ullong_max
    → kv_copy 64 payload key ≡ some (decimal n)
    → kv_u64 payload key ≡ some n
unfolding kv_u64
kv_u64-decimal payload key n h e =
    ap (λ o. elim o as (λ x. Option ℕ) [ none ↦ none | some buf ↦ all_of (strtoul ullong_max buf) ])
      e
    ∙ ap all_of (strtoul-decimal n h)
