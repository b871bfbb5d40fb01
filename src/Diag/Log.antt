-- ===== src/Diag/Log.antt =====
-- The log of src/diag.c: its lines, the file that they go to, and how that file is rotated. The
-- file system answers whether a file can be opened and whether a file can be renamed.
pub mod Rotated
pub mod Kept
pub mod Sequence
pub mod Stuck
pub mod Hex
use reactos_luagent.Base.{
  ℕ, zero, suc, ◌+◌, ◌-◌, ◌*◌, ◌/◌, ◌%◌, ◌^◌, Bool, true, false, not, ◌&&◌, ◌||◌, ◌==◌, ltb,
  if◌then◌else◌, List, [], ◌∷◌, ◌++◌, Bytes, String, codes, length, take, Option, none, some, ℤ,
  pos, negsuc, bytes_eq,
}
use reactos_luagent.Libc.{decimal, signed_decimal, c_string}
use reactos_luagent.Frame.{FrameType}
use reactos_luagent.Protocol.{protocol_type_name}
use reactos_luagent.Diag.Levels.{
  Level, level_error, level_warn, level_info, level_debug, level_trace, level_name, WireMode,
  wire_mode_off, wire_mode_summary, wire_mode_hex, parse_level, parse_wire_mode,
}

-- DIAG_LOG_ROTATE_BYTES, DIAG_LOG_ROTATE_KEEP
abbrev pub rotate_bytes : ℕ
rotate_bytes = 1048576

abbrev pub rotate_keep : ℕ
rotate_keep = 3

-- The files by name.
abbrev pub Disk : Type 0
Disk = Bytes → Option Bytes

unfoldable pub put_file : Bytes → Option Bytes → Disk → Disk
put_file name content disk other = if bytes_eq other name then content else disk other

-- The answers of `fopen` for appending and, where the source exists, of `rename`.
pub record Files : Type 0 where
  pub open_ok : Disk → Bytes → Bool
  pub rename_ok : Disk → Bytes → Bytes → Bool

-- `struct diag_state` without its counters, the files, and what went to stderr. An open `file` is
-- the one at `path`: it is closed before that is renamed.
pub record LogState : Type 0 where
  pub initialized : Bool
  pub level : Level
  pub wire_mode : WireMode
  pub file_open : Bool
  pub path : Bytes
  pub disk : Disk
  pub stderr_text : Bytes

abbrev pub level_number : Level → ℕ
level_number level_error = 0
level_number level_warn = 1
level_number level_info = 2
level_number level_debug = 3
level_number level_trace = 4

-- What `util_snprintf` and `vsnprintf` leave in a buffer of `n` bytes, cut or not.
abbrev pub printed : ℕ → Bytes → Bytes
printed n text = take (n - 1) text

abbrev pub is_empty : Bytes → Bool
is_empty [] = true
is_empty (b ∷ bs) = false

-- The name of the file that is `i` rotations old.
unfoldable pub rotated_name : Bytes → ℕ → Bytes
rotated_name path zero = printed 640 path
rotated_name path (suc i) = printed 640 (path ++ (codes "." ++ decimal (suc i)))

-- A file that is missing has no bytes.
abbrev pub content_of : Option Bytes → Bytes
content_of none = []
content_of (some content) = content

-- `fputs` to a file that is open: its end.
unfoldable pub append_to : Bytes → Bytes → Disk → Disk
unfolding put_file
append_to name text disk = put_file name (some (content_of (disk name) ++ text)) disk

module _ (files : Files) where
  -- A missing source is an error, which the caller does not look at.
  unfoldable pub rename : Bytes → Bytes → Disk → Disk
  unfolding put_file
  rename src dst disk = elim (disk src) [
    | none ↦ disk
    | some content ↦
        if files.rename_ok disk src dst
        then put_file src none (put_file dst (some content) disk)
        else disk
  ]

  -- `for (i = DIAG_LOG_ROTATE_KEEP; i > 0; --i)`, with the rounds left.
  unfoldable pub rotate_loop : ℕ → Bytes → Disk → Disk
  rotate_loop zero path disk = disk
  rotate_loop (suc i) path disk =
      rotate_loop i path (rename (rotated_name path i) (rotated_name path (suc i)) disk)

  unfoldable pub rotate_logs_if_needed : ℕ → LogState → LogState
  rotate_logs_if_needed incoming_len g = if is_empty g.path then g else elim (g.disk g.path) [
    | none ↦ g
    | some content ↦
        if ltb (length content + incoming_len) rotate_bytes
        then g
        else record g { file_open = false; disk = rotate_loop rotate_keep g.path g.disk }
  ]

  -- `fopen` for appending makes a file that is missing.
  unfoldable pub ensure_log_file : LogState → LogState
  unfolding append_to
  ensure_log_file g =
      if is_empty g.path || g.file_open
      then g
      else if files.open_ok g.disk g.path
      then record g { file_open = true; disk = append_to g.path [] g.disk }
      else g

  -- The three environment variables.
  unfoldable pub diag_init : Option Bytes → Option Bytes → Option Bytes → Disk → Bytes → LogState
  unfolding ensure_log_file
  diag_init level_env wire_env file_env disk stderr_text =
      record (ensure_log_file (record {
        initialized = false;
        level = parse_level level_env;
        wire_mode = parse_wire_mode wire_env;
        file_open = false;
        path = elim file_env [ none ↦ [] | some name ↦ printed 512 (c_string name) ];
        disk = disk;
        stderr_text = stderr_text;
      })) { initialized = true }

  -- The end of `diag_log`, with the line.
  unfoldable pub write_line : Bytes → LogState → LogState
  unfolding append_to
  write_line line g =
      let told = record g { stderr_text = g.stderr_text ++ line } in
      let opened = ensure_log_file (rotate_logs_if_needed (length line) told) in
      if opened.file_open
      then record opened { disk = append_to opened.path line opened.disk }
      else opened

unfoldable pub diag_shutdown : LogState → LogState
diag_shutdown g = record g {
  initialized = false;
  level = level_error;
  wire_mode = wire_mode_off;
  file_open = false;
  path = [];
}

-- `%-5s`: spaces up to a width.
unfoldable pub padded : ℕ → Bytes → Bytes
padded zero text = text
padded (suc n) [] = b' ' ∷ padded n []
padded (suc n) (b ∷ bs) = b ∷ padded n bs

-- A cast of a `uint32_t` to `int`.
abbrev pub to_int : ℕ → ℤ
to_int n = if ltb n (2 ^ 31) then pos n else negsuc (2 ^ 32 - n - 1)

-- What a call of `diag_log` is about: `session` is its id, unless it is NULL, and `message` the text
-- that the format and its arguments make.
pub record Entry : Type 0 where
  pub level : Level
  pub subsystem : Option Bytes
  pub session : Option ℕ
  pub req_id : ℕ
  pub message : Bytes
  pub now_ms : ℕ
  pub pid : ℤ

unfoldable pub log_line : Entry → Bytes
log_line e = printed 1400 (
    decimal e.now_ms
    ++ (codes " "
        ++ (padded 5 (codes (level_name e.level))
            ++ (codes " pid="
                ++ (signed_decimal e.pid
                    ++ (codes " session="
                        ++ (signed_decimal (elim e.session [ none ↦ pos 0 | some id ↦ to_int id ])
                            ++ (codes " req="
                                ++ (decimal e.req_id
                                    ++ (codes " "
                                        ++ (padded 6 (elim e.subsystem [
                                          | none ↦ codes "misc"
                                          | some s ↦ s
                                        ])
                                            ++ (codes " "
                                                ++ (printed 1024 e.message
                                                    ++ codes "\n")))))))))))))

-- `%02X `, for a byte.
abbrev pub hex_digit : ℕ → ℕ
hex_digit n = if ltb n 10 then b'0' + n else b'A' + (n - 10)

abbrev pub hex_byte : ℕ → Bytes
hex_byte b = hex_digit (b / 16) ∷ hex_digit (b % 16) ∷ b' ' ∷ []

-- The loop of `diag_wire`, into a buffer of 1024 bytes that is filled up to `at`.
unfoldable pub hex_loop : ℕ → Bytes → Bytes
hex_loop at [] = []
hex_loop at (b ∷ bs) =
    let rest = hex_loop (at + 3) bs in if ltb (at + 4) 1024 then hex_byte b ++ rest else []

module _ (files : Files) where
  unfoldable pub diag_log : Entry → LogState → LogState
  unfolding log_line write_line
  diag_log e g =
      if not g.initialized || ltb (level_number g.level) (level_number e.level)
      then g
      else write_line files (log_line e) g

  -- `e` carries the session, the request, the time and the process. No caller passes a frame
  -- without bytes, for which the second line would show an uninitialised buffer.
  unfoldable pub diag_wire :
      Bytes → Entry → Option FrameType → ℕ → Option Bytes → LogState → LogState
  unfolding diag_log hex_loop
  diag_wire dir e type payload_len frame g =
      let wire_entry = λ (level : Level) (message : Bytes). record e {
        level = level;
        subsystem = some (codes "frame");
        message = message;
      } in
      let summary =
        dir
        ++ (codes " type="
            ++ (codes (protocol_type_name type) ++ (codes " len=" ++ decimal payload_len))) in
      let g1 = diag_log (wire_entry level_debug summary) g in
      let dumped = λ (bytes : Bytes).
        diag_log (wire_entry level_trace (dir ++ (codes " raw=" ++ hex_loop 0 bytes))) g1 in
      if not g.initialized then g else elim g.wire_mode [
        | wire_mode_off ↦ g
        | wire_mode_summary ↦ g1
        | wire_mode_hex ↦ elim frame [ none ↦ g1 | some bytes ↦ dumped bytes ]
      ]

  abbrev pub diag_wire_rx : Entry → Option FrameType → ℕ → Option Bytes → LogState → LogState
  diag_wire_rx = diag_wire (codes "RX")

  abbrev pub diag_wire_tx : Entry → Option FrameType → ℕ → Option Bytes → LogState → LogState
  diag_wire_tx = diag_wire (codes "TX")
