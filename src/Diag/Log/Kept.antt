-- ===== src/Diag/Log/Kept.antt =====
-- What the log of src/diag.c keeps: the files of a log hold the end of all that was logged.
use reactos_luagent.Base.{
  if◌then◌else◌, ℕ, ◌+◌, ◌<◌, ◌≤◌, ◌≡◌, refl, sym, ap, ◌∙◌, ◌⊎◌, inl, inr, true, false, ltb, ltb→lt,
  not-ltb→le, Bool-cases, [], ◌++◌, Bytes, length, length-append, Option-cases, arith,
  bytes_eq_refl, append_assoc, append-nil,
}
use reactos_luagent.Libc.{decimal, digits_loop}
use reactos_luagent.Diag.Log.{
  Disk, Files, LogState, put_file, append_to, rotate_loop, rotated_name, rotate_keep, rotate_bytes,
  content_of, is_empty, rotate_logs_if_needed, ensure_log_file, write_line,
}
use reactos_luagent.Diag.Log.Rotated.{RenamesAll, Rotated, rotate-Rotated, name_zero, names_differ}

-- What the files of a log hold, the oldest first.
abbrev pub history : Bytes → Disk → Bytes
history path d =
    content_of (d (rotated_name path 3))
    ++ (content_of (d (rotated_name path 2))
        ++ (content_of (d (rotated_name path 1)) ++ content_of (d path)))

-- A log that gets `text` at its end.
record Grows (path text : Bytes) (d d' : Disk) : Type 0 where
  log : content_of (d' path) ≡ content_of (d path) ++ text
  first : d' (rotated_name path 1) ≡ d (rotated_name path 1)
  second : d' (rotated_name path 2) ≡ d (rotated_name path 2)
  third : d' (rotated_name path 3) ≡ d (rotated_name path 3)

Grows-history :
    (path text : Bytes) (d d' : Disk)
    → Grows path text d d'
    → history path d' ≡ history path d ++ text
Grows-history path text d d' g = simp (g.log, g.first, g.second, g.third, append_assoc)

append-Grows :
    (path text : Bytes) (d : Disk) → length path < 512 → Grows path text d (append_to path text d)
unfolding append_to put_file decimal digits_loop
append-Grows path text d short =
    let zeroth = name_zero path short in
    let apart = λ (i : ℕ). names_differ path i 0 short in
    let d10 = apart 1 (omega arith) (omega arith) refl in
    let d20 = apart 2 (omega arith) (omega arith) refl in
    let d30 = apart 3 (omega arith) (omega arith) refl in
    record {
      log = rw (bytes_eq_refl path) refl;
      first = rw (rw zeroth at d10) refl;
      second = rw (rw zeroth at d20) refl;
      third = rw (rw zeroth at d30) refl;
    }

holds_log :
    (path : Bytes) (d d' : Disk)
    → Rotated path d d'
    → length (content_of (d path)) ≤ length (history path d')
holds_log path d d' r =
    let c1 = content_of (d' (rotated_name path 1)) in
    let c0 = content_of (d' path) in
    let rest = content_of (d' (rotated_name path 2)) ++ (c1 ++ c0) in
    omega (
      arith,
      ap (λ o. length (content_of o)) r.first,
      length-append (content_of (d' (rotated_name path 3))) rest,
      length-append (content_of (d' (rotated_name path 2))) (c1 ++ c0),
      length-append c1 c0,
    )

-- What a rotation loses is the oldest file, and it keeps the log.
rotate_history :
    (path : Bytes) (d d' : Disk)
    → Rotated path d d'
    → (lost : Bytes) × (history path d ≡ lost ++ history path d')
      × (length (content_of (d path)) ≤ length (history path d'))
rotate_history path d d' r = elim (Option-cases (d (rotated_name path 2))) [
  | inl missing ↦
      ([], simp (r.log, r.first, r.second, r.third, missing, append-nil), holds_log path d d' r)
  | inr (c, e) ↦ (
    content_of (d (rotated_name path 3)),
    simp (r.log, r.first, r.second, r.third, e, append-nil),
    holds_log path d d' r,
  )
]

-- A file can be opened for appending.
pub record OpensAll (files : Files) : Type 0 where
  pub opens : (d : Disk) (name : Bytes) → files.open_ok d name ≡ true

-- Lines of the log, from one state to another: they are on stderr, and the files hold them at the
-- end. What is lost is what was first, and then a whole log is still there.
pub record Logs (lines : Bytes) (g g' : LogState) : Type 0 where
  pub same_initialized : g'.initialized ≡ g.initialized
  pub same_level : g'.level ≡ g.level
  pub same_path : g'.path ≡ g.path
  pub told : g'.stderr_text ≡ g.stderr_text ++ lines
  pub lost : Bytes
  pub kept : history g.path g.disk ++ lines ≡ lost ++ history g.path g'.disk
  pub enough : (lost ≡ []) ⊎ (rotate_bytes ≤ length (history g.path g'.disk))

module _ (files : Files) where
  -- The two outcomes of the test for a rotation.
  pub data Turn (n : ℕ) (g : LogState) : Type 0 where
    stays :
        rotate_logs_if_needed files n g ≡ g
        → length (content_of (g.disk g.path)) + n < rotate_bytes
        → Turn n g
    turns :
        rotate_logs_if_needed files n g
          ≡ record g { file_open = false; disk = rotate_loop files rotate_keep g.path g.disk }
        → rotate_bytes ≤ length (content_of (g.disk g.path)) + n
        → Turn n g

  pub turn : (n : ℕ) (g : LogState) → is_empty g.path ≡ false → n < rotate_bytes → Turn n g
  unfolding rotate_logs_if_needed
  turn n g named small = elim (Option-cases (g.disk g.path)) [
    | inl missing ↦ stays (ground arith) (ground arith)
    | inr (content, e) ↦ elim (Bool-cases (ltb (length content + n) rotate_bytes)) [
      | inl fits ↦ stays (ground arith) (rw e (ltb→lt _ _ fits))
      | inr full ↦ turns (ground arith) (rw e (not-ltb→le _ _ full))
    ]
  ]

module _ {files : Files} (opens : OpensAll files) where
  -- The end of `write_line`, on a log that may have been rotated.
  abbrev pub finish : Bytes → LogState → LogState
  finish line g =
      let opened = ensure_log_file files g in
      if opened.file_open
      then record opened { disk = append_to opened.path line opened.disk }
      else opened

  -- It opens the file, if it is not open, and adds the line.
  pub record Finished (line : Bytes) (g g' : LogState) : Type 0 where
    pub same_initialized : g'.initialized ≡ g.initialized
    pub same_level : g'.level ≡ g.level
    pub same_path : g'.path ≡ g.path
    pub same_stderr : g'.stderr_text ≡ g.stderr_text
    pub grown : history g.path g'.disk ≡ history g.path g.disk ++ line
    pub end : content_of (g'.disk g.path) ≡ content_of (g.disk g.path) ++ line

  pub finish-Finished :
      (line : Bytes) (g : LogState)
      → is_empty g.path ≡ false
      → length g.path < 512
      → Finished line g (finish line g)
  unfolding ensure_log_file
  finish-Finished line g named short =
      let made = append-Grows g.path [] g.disk short in
      let old = append-Grows g.path line g.disk short in
      let new = append-Grows g.path line (append_to g.path [] g.disk) short in
      elim (Bool-cases g.file_open) [
        | inl open_ ↦
            let same : finish line g ≡ record g { disk = append_to g.path line g.disk } =
              ground arith in
            rw same (record {
              same_initialized = refl;
              same_level = refl;
              same_path = refl;
              same_stderr = refl;
              grown = Grows-history g.path line _ _ old;
              end = old.log;
            })
        | inr shut ↦
            let same : finish line g ≡ record g {
              file_open = true;
              disk = append_to g.path line (append_to g.path [] g.disk);
            } =
              ground (arith, opens.opens g.disk g.path) in
            rw same (record {
              same_initialized = refl;
              same_level = refl;
              same_path = refl;
              same_stderr = refl;
              grown =
                  Grows-history g.path line _ _ new
                  ∙ ap (λ h. h ++ line) (Grows-history g.path [] _ _ made ∙ append-nil _);
              end = new.log ∙ ap (λ h. h ++ line) (made.log ∙ append-nil _);
            })
      ]

module _ {files : Files} (all : RenamesAll files) (opens : OpensAll files) where
  -- A line is logged, and the log then has the line alone or is not full.
  pub write_line-Logs :
      (line : Bytes) (g : LogState)
      → is_empty g.path ≡ false
      → length g.path < 512
      → length line < rotate_bytes
      → Logs line g (write_line files line g)
        × (length (content_of ((write_line files line g).disk g.path)) < rotate_bytes)
  unfolding write_line
  write_line-Logs line g named short small =
      let told = record g { stderr_text = g.stderr_text ++ line } in
      elim (turn files (length line) told named small) [
        | stays same fits ↦
            let f = finish-Finished opens line told named short in
            rw same (
              record {
                same_initialized = f.same_initialized;
                same_level = f.same_level;
                same_path = f.same_path;
                told = f.same_stderr;
                lost = [];
                kept = sym f.grown;
                enough = inl refl;
              },
              omega (arith, ap length f.end, length-append (content_of (g.disk g.path)) line, fits),
            )
        | turns same full ↦
            let rotated = rotate_loop files rotate_keep g.path g.disk in
            let turned = record told { file_open = false; disk = rotated } in
            let f = finish-Finished opens line turned named short in
            let r = rotate-Rotated all g.path g.disk short in
            let (lost, old, holds) = rotate_history g.path g.disk rotated r in
            rw same (
              record {
                same_initialized = f.same_initialized;
                same_level = f.same_level;
                same_path = f.same_path;
                told = f.same_stderr;
                lost = lost;
                kept =
                    ap (λ h. h ++ line) old
                    ∙ append_assoc lost (history g.path rotated) line
                    ∙ ap (λ h. lost ++ h) (sym f.grown);
                enough = inr (
                    omega (
                      arith,
                      ap length f.grown,
                      length-append (history g.path rotated) line,
                      holds,
                      full,
                    ));
              },
              omega (arith, ap length f.end, ap (λ o. length (content_of o ++ line)) r.log, small),
            )
      ]
