-- ===== src/Diag/Log/Sequence.antt =====
-- Any sequence of calls of `diag_log` in src/diag.c: what stderr and the files of the log have then.
use reactos_luagent.Base.{
  ◌<◌, ◌≤◌, ◌≡◌, refl, sym, ap, ◌∙◌, ◌⊎◌, inl, inr, Bool, true, false, ltb, if◌then◌else◌,
  Bool-cases, List, [], ◌∷◌, ◌++◌, Bytes, length, length-append, length-take, arith, append_assoc,
  append-nil, subst,
}
use reactos_luagent.Diag.Levels.{Level}
use reactos_luagent.Diag.Log.{
  Files, LogState, Entry, level_number, content_of, is_empty, rotate_bytes, log_line, write_line,
  diag_log,
}
use reactos_luagent.Diag.Log.Rotated.{RenamesAll}
use reactos_luagent.Diag.Log.Kept.{Logs, OpensAll, history, write_line-Logs}

-- An entry of a level up to that of the log is shown.
abbrev pub is_shown : Level → Entry → Bool
is_shown level e = if ltb (level_number level) (level_number e.level) then false else true

abbrev pub shown : Level → List Entry → Bytes
shown level [] = []
shown level (e ∷ es) = (if is_shown level e then log_line e else []) ++ shown level es

unfoldable pub log_all : Files → List Entry → LogState → LogState
log_all files [] g = g
log_all files (e ∷ es) g = log_all files es (diag_log files e g)

length-log_line : (e : Entry) → length (log_line e) < rotate_bytes
unfolding log_line
length-log_line e = omega (arith, length-take {0} 1399)

Logs-nothing : (g : LogState) → Logs [] g g
Logs-nothing g = record {
  same_initialized = refl;
  same_level = refl;
  same_path = refl;
  told = sym (append-nil _);
  lost = [];
  kept = append-nil _;
  enough = inl refl;
}

-- Enough is left after more lines.
still_enough :
    (lost lost' h more h' : Bytes)
    → (lost ≡ []) ⊎ (rotate_bytes ≤ length h)
    → (lost' ≡ []) ⊎ (rotate_bytes ≤ length h')
    → h ++ more ≡ lost' ++ h'
    → (lost ++ lost' ≡ []) ⊎ (rotate_bytes ≤ length h')
still_enough lost lost' h more h' (inl a) (inl b) e = inl (rw (a, b) refl)
still_enough lost lost' h more h' (inr a) (inl b) e =
    inr (omega (arith, a, length-append h more, ap length (e ∙ ap (λ l. l ++ h') b)))
still_enough lost lost' h more h' a (inr b) e = inr b

Logs-append :
    (a b : Bytes) (g g' g'' : LogState) → Logs a g g' → Logs b g' g'' → Logs (a ++ b) g g''
Logs-append a b g g' g'' first then_ =
    let kept = rw first.same_path at then_.kept in
    let enough = rw first.same_path at then_.enough in
    record {
      same_initialized = then_.same_initialized ∙ first.same_initialized;
      same_level = then_.same_level ∙ first.same_level;
      same_path = then_.same_path ∙ first.same_path;
      told = then_.told ∙ ap (λ t. t ++ b) first.told ∙ append_assoc g.stderr_text a b;
      lost = first.lost ++ then_.lost;
      kept =
          sym (append_assoc (history g.path g.disk) a b)
          ∙ ap (λ h. h ++ b) first.kept
          ∙ append_assoc first.lost (history g.path g'.disk) b
          ∙ ap (λ h. first.lost ++ h) kept
          ∙ sym (append_assoc first.lost then_.lost (history g.path g''.disk));
      enough = still_enough first.lost then_.lost _ b _ first.enough enough kept;
    }

module _ {files : Files} (all : RenamesAll files) (opens : OpensAll files) where
  -- The log has room.
  abbrev HasRoom : LogState → Type 0
  HasRoom g = length (content_of (g.disk g.path)) < rotate_bytes

  diag_log-Logs :
      (e : Entry) (g : LogState)
      → g.initialized ≡ true
      → is_empty g.path ≡ false
      → length g.path < 512
      → HasRoom g
      → Logs (if is_shown g.level e then log_line e else []) g (diag_log files e g)
        × (length (content_of ((diag_log files e g).disk g.path)) < rotate_bytes)
  unfolding diag_log
  diag_log-Logs e g init named short room =
      elim (Bool-cases (ltb (level_number g.level) (level_number e.level))) [
        | inl hidden ↦
            let same : diag_log files e g ≡ g = ground arith in
            let none_shown : (if is_shown g.level e then log_line e else []) ≡ [] = ground arith in
            rw (same, none_shown) (Logs-nothing g, room)
        | inr seen ↦
            let same : diag_log files e g ≡ write_line files (log_line e) g = ground arith in
            let one_shown : (if is_shown g.level e then log_line e else []) ≡ log_line e =
              ground arith in
            rw (same, one_shown)
              (write_line-Logs all opens (log_line e) g named short (length-log_line e))
      ]

  -- If files can be opened and renamed, the log is initialized with a path of 1 to 511 bytes, and its
  -- file has less than DIAG_LOG_ROTATE_BYTES, then after any calls of `diag_log` stderr has got the
  -- lines of the entries up to the level, in order; the files hold what they held with these lines
  -- behind it, but perhaps for a first part, and if that was lost, then they hold
  -- DIAG_LOG_ROTATE_BYTES or more; and the log's file has less than that again.
  pub log_all_keeps :
      (es : List Entry) (g : LogState)
      → g.initialized ≡ true
      → is_empty g.path ≡ false
      → length g.path < 512
      → HasRoom g
      → Logs (shown g.level es) g (log_all files es g)
        × (length (content_of ((log_all files es g).disk g.path)) < rotate_bytes)
  unfolding log_all
  log_all_keeps [] g init named short room = (Logs-nothing g, room)
  log_all_keeps (e ∷ es) g init named short room =
      let (one, room1) = diag_log-Logs e g init named short room in
      let path = one.same_path in
      let g1 = diag_log files e g in
      let (rest, room2) =
        log_all_keeps es g1 (one.same_initialized ∙ init) (ap is_empty path ∙ named)
          (omega (arith, ap length path, short))
          (subst (λ p. length (content_of (g1.disk p)) < rotate_bytes) (sym path) room1) in
      (
        Logs-append _ (shown g.level es) g g1 _ one
            (subst (λ l. Logs (shown l es) g1 (log_all files es g1)) one.same_level rest),
        subst (λ p. length (content_of ((log_all files es g1).disk p)) < rotate_bytes) path room2,
      )
