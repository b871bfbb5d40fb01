-- ===== src/Proc/Args.antt =====
-- The argument vectors: `proc_build_args` and `proc_dup_args`.
use reactos_luagent.Base.{
  ℕ, zero, suc, ◌+◌, not, ◌==◌, if◌then◌else◌, List, [], ◌∷◌, Bytes, codes, ◌++◌, length, Option,
  none, some,
}
use reactos_luagent.Libc.{decimal, to_u32, strtoul, ullong_max}
use reactos_luagent.Kv.{kv_copy}
use reactos_luagent.Machine.{
  bytes_block, pointers_block, Os, Action, ◌>>=◌, on_some, pure, allocate,
}
use reactos_luagent.Session.{util_snprintf}

-- The key "argv%u", in its buffer of 32 bytes.
unfoldable pub argv_key : ℕ → Option Bytes
argv_key i = util_snprintf 32 (codes "argv" ++ decimal (to_u32 i))

-- The value of an argument, in its buffer of 512 bytes.
unfoldable pub argv_value : Bytes → ℕ → Option Bytes
argv_value payload i = elim (argv_key i) [ none ↦ none | some key ↦ kv_copy 512 payload key ]

-- The first loop of `proc_build_args`: how many arguments stand in the payload, one after the
-- other. Each found key is a line of its own, so that the loop ends within the payload's length.
unfoldable pub count_args : ℕ → Bytes → ℕ → ℕ
count_args zero payload count = count
count_args (suc fuel) payload count =
    let more = count_args fuel payload (count + 1) in
    elim (argv_value payload count) [ none ↦ count | some v ↦ more ]

module _ (os : Os) where
  -- One round of either loop: `strdup` of a text; `more` is the rounds after it.
  unfoldable pub copy_one : Bytes → Action (Option (List Bytes)) → Action (Option (List Bytes))
  copy_one v more = do
    have ← allocate os (bytes_block (length v + 1))
    if not have
        then pure none
        else do rest ← more; on_some rest (pure none) λ ws. pure (some (v ∷ ws))

  -- The loop of `proc_dup_args`.
  unfoldable pub dup_args : List Bytes → Action (Option (List Bytes))
  dup_args [] = pure (some [])
  dup_args (v ∷ vs) = copy_one v (λ s. dup_args vs s)

  -- The second loop of `proc_build_args`, for `left` arguments from `i` on.
  unfoldable pub copy_args : ℕ → Bytes → ℕ → Action (Option (List Bytes))
  copy_args zero payload i = pure (some [])
  copy_args (suc left) payload i =
      on_some (argv_value payload i) (pure none)
        λ v. copy_one v (λ s. copy_args left payload (i + 1) s)

  -- With one argument or none, the vector is the path alone.
  unfoldable pub proc_build_args : Bytes → Bytes → Action (Option (List Bytes))
  proc_build_args payload path = do
    let found = count_args (length payload + 1) payload 0
    let count = if found == 0 then 1 else found
    have ← allocate os (pointers_block (count + 1))
    if not have
        then pure none
        else if count == 1
        then (do
          copied ← allocate os (bytes_block (length path + 1))
          pure (some (if copied then path ∷ [] else [])))
        else copy_args count payload 0

  unfoldable pub proc_dup_args : List Bytes → Action (Option (List Bytes))
  proc_dup_args [] = pure none
  proc_dup_args (v ∷ vs) = do
    have ← allocate os (pointers_block (length (v ∷ vs) + 1))
    if not have then pure none else dup_args (v ∷ vs)

-- `kv_u64_default` of src/proc.c, which reads the number itself.
unfoldable pub kv_u64_default : Bytes → Bytes → ℕ → ℕ
kv_u64_default payload key default_value = elim (kv_copy 64 payload key) [
  | none ↦ default_value
  | some buf ↦ elim (strtoul ullong_max buf) [
    | none ↦ default_value
    | some (value, []) ↦ value
    | some (value, b ∷ bs) ↦ default_value
  ]
]
