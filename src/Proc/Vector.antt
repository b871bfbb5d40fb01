-- ===== src/Proc/Vector.antt =====
-- The argument vector of a process in src/proc.c.
use reactos_luagent.Base.{
  ltb, ltb→lt, not-ltb→le, ℕ, zero, suc, ◌+◌, ◌<◌, ◌≤◌, ◌^◌, ◌≡◌, refl, ap, ◌∙◌, ◌⊎◌, inl, inr,
  Bool-cases, ◌==◌, if◌then◌else◌, List, [], ◌∷◌, Bytes, length, Option, none, some, Option-cases,
  arith,
}
use reactos_luagent.Machine.{Os, State, Action, bytes_block, pointers_block, alloc, ◌>>=◌, pure}
use reactos_luagent.Machine.Keeps.{if-action}
use reactos_luagent.Proc.Args.{
  argv_value, count_args, copy_one, dup_args, copy_args, proc_build_args, proc_dup_args,
}
use reactos_luagent.Proc.Count.{count_args_ends}

-- The arguments of the payload from one on.
abbrev pub IsVector : Bytes → ℕ → List Bytes → Type 0
IsVector payload i [] = Unit
IsVector payload i (v ∷ vs) = (argv_value payload i ≡ some v) × IsVector payload (i + 1) vs

-- How many arguments `proc_build_args` counts.
unfoldable pub counted : Bytes → ℕ
counted payload = count_args (length payload + 1) payload 0

-- The two ways in which `proc_build_args` succeeds, with the number of arguments that it counted.
pub data Built (payload path : Bytes) (count : ℕ) (vs : List Bytes) : Type 0 where
  all_arguments :
      1 < count → length vs ≡ count → IsVector payload 0 vs → Built payload path count vs
  path_alone : count ≤ 1 → (vs ≡ path ∷ []) ⊎ (vs ≡ []) → Built payload path count vs

no_vector : (vs : List Bytes) → some [] ≡ some vs → vs ≡ []
no_vector [] e = refl
no_vector (v ∷ vs) e = absurd (ground arith)

module _ (os : Os) where
  copied_one :
      (v : Bytes) (more : Action (Option (List Bytes))) (s : State) (vs : List Bytes)
      → (copy_one os v more s).0 ≡ some vs
      → (rest : List Bytes) × (s' : State) × ((more s').0 ≡ some rest) × (vs ≡ v ∷ rest)
  unfolding copy_one ◌>>=◌
  copied_one v more s vs e =
      let s1 = record s { trace = alloc (bytes_block (length v + 1)) ∷ s.trace } in
      elim (Option-cases (more s1).0) [
        | inl failed ↦ absurd (grind (arith, if-action))
        | inr (rest, got) ↦ (rest, s1, got, grind (arith, if-action))
      ]

  copied_args :
      (left : ℕ) (payload : Bytes) (i : ℕ) (s : State) (vs : List Bytes)
      → (copy_args os left payload i s).0 ≡ some vs
      → IsVector payload i vs × (length vs ≡ left)
  unfolding copy_args pure
  copied_args zero payload i s vs e = rw (no_vector vs e) (tt, refl)
  copied_args (suc left) payload i s vs e = elim (Option-cases (argv_value payload i)) [
    | inl missing ↦ absurd (grind (arith, if-action))
    | inr (v, found) ↦
        let (rest, s', got, same) =
          copied_one v (λ u. copy_args os left payload (i + 1) u) s vs (grind (arith, if-action)) in
        let (vector, size) = copied_args left payload (i + 1) s' rest got in
        rw same ((found, vector), ap (λ n. suc n) size)
  ]

  dupped :
      (vs : List Bytes) (s : State) (ws : List Bytes) → (dup_args os vs s).0 ≡ some ws → ws ≡ vs
  unfolding dup_args pure
  dupped [] s ws e = no_vector ws e
  dupped (v ∷ vs) s ws e =
      let (rest, s', got, same) = copied_one v (λ u. dup_args os vs u) s ws e in
      same ∙ ap (λ r. v ∷ r) (dupped vs s' rest got)

  -- If `proc_dup_args` succeeds, then the copy has the same arguments, and there is one.
  pub proc_dup_args_same :
      (vs : List Bytes) (s : State) (ws : List Bytes)
      → (proc_dup_args os vs s).0 ≡ some ws
      → (ws ≡ vs) × (0 < length ws)
  unfolding proc_dup_args ◌>>=◌
  proc_dup_args_same [] s ws e = absurd (grind (arith, if-action))
  proc_dup_args_same (v ∷ vs) s ws e =
      let copied : (dup_args os (v ∷ vs)
            (record s { trace = alloc (pointers_block (length (v ∷ vs) + 1)) ∷ s.trace })).0
          ≡ some ws =
        grind (arith, if-action) in
      let same = dupped (v ∷ vs) _ ws copied in (same, rw same (omega arith))

  built_many :
      (payload path : Bytes) (s : State) (vs : List Bytes)
      → 1 < counted payload
      → (proc_build_args os payload path s).0 ≡ some vs
      → (copy_args os
          (counted payload)
          payload
          0
          (record s { trace = alloc (pointers_block (counted payload + 1)) ∷ s.trace })).0
        ≡ some vs
  unfolding proc_build_args counted ◌>>=◌
  built_many payload path s vs many e = grind (arith, if-action)

  built_one :
      (payload path : Bytes) (s : State) (vs : List Bytes)
      → counted payload ≤ 1
      → (proc_build_args os payload path s).0 ≡ some vs
      → (vs ≡ path ∷ []) ⊎ (vs ≡ [])
  unfolding proc_build_args counted ◌>>=◌
  built_one payload path s vs few e =
      let count = if counted payload == 0 then 1 else counted payload in
      let asked = alloc (pointers_block (count + 1)) ∷ s.trace in
      elim (Bool-cases (os.alloc_ok asked (bytes_block (length path + 1)))) [
        | inl copied ↦ inl (grind (arith, if-action))
        | inr failed ↦ inr (grind (arith, if-action))
      ]

  -- If the payload is shorter than 2 ^ 32 and `proc_build_args` succeeds, then it counted the arguments
  -- from `argv0` up to the first that is missing; two or more of them are the vector, in order, and for
  -- fewer, also for `argv0` alone, the vector is the path, or is empty where the copy of that failed.
  pub proc_build_args_builds :
      (payload path : Bytes) (s : State) (vs : List Bytes)
      → length payload < 2 ^ 32
      → (proc_build_args os payload path s).0 ≡ some vs
      → (argv_value payload (counted payload) ≡ none) × Built payload path (counted payload) vs
  proc_build_args_builds payload path s vs small e = (
    unfold counted in count_args_ends payload small,
    elim (Bool-cases (ltb 1 (counted payload))) [
      | inl many ↦
          let (vector, size) =
            copied_args (counted payload) payload 0 _ vs
              (built_many payload path s vs (ltb→lt _ _ many) e) in
          all_arguments (ltb→lt _ _ many) size vector
      | inr few ↦
          path_alone (not-ltb→le _ _ few) (built_one payload path s vs (not-ltb→le _ _ few) e)
    ],
  )
