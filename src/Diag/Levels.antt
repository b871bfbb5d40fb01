-- ===== src/Diag/Levels.antt =====
-- The levels and wire modes of src/diag.c, as text.
use reactos_luagent.Base.{
  ◌≡◌, ◌≢◌, ◌↔◌, refl, sym, ap, ◌∙◌, if◌then◌else◌, Bool, true, false, Bytes, String, codes, Option,
  none, some, bytes_eq, bytes_eq→≡, subst,
}
use reactos_luagent.Libc.{c_string}

-- `enum diag_level`
pub data Level : Type 0 where
  level_error level_warn level_info level_debug level_trace : Level

unfoldable pub level_name : Level → String
level_name level_error = "ERROR"
level_name level_warn = "WARN"
level_name level_info = "INFO"
level_name level_debug = "DEBUG"
level_name level_trace = "TRACE"

-- `strcmp(value, text) == 0`
abbrev pub is_text : Bytes → String → Bool
is_text value text = bytes_eq (c_string value) (codes text)

-- The value of an environment variable, which may be unset.
unfoldable pub parse_level : Option Bytes → Level
parse_level none = level_info
parse_level (some value) =
    if is_text value "ERROR"
    then level_error
    else if is_text value "WARN"
    then level_warn
    else if is_text value "DEBUG"
    then level_debug
    else if is_text value "TRACE"
    then level_trace
    else level_info

pub data WireMode : Type 0 where
  wire_mode_off wire_mode_summary wire_mode_hex : WireMode

unfoldable pub parse_wire_mode : Option Bytes → WireMode
parse_wire_mode none = wire_mode_off
parse_wire_mode (some value) =
    if is_text value "off"
    then wire_mode_off
    else if is_text value "hex"
    then wire_mode_hex
    else wire_mode_summary

-- The level of a text without its NUL.
abbrev level_of : Bytes → Level
level_of text =
    if bytes_eq text (codes "ERROR")
    then level_error
    else if bytes_eq text (codes "WARN")
    then level_warn
    else if bytes_eq text (codes "DEBUG")
    then level_debug
    else if bytes_eq text (codes "TRACE")
    then level_trace
    else level_info

named :
    (value : Bytes) (level : Level)
    → c_string value ≡ codes (level_name level)
    → parse_level (some value) ≡ level
unfolding parse_level level_name
named value level_error e = ap level_of e
named value level_warn e = ap level_of e
named value level_info e = ap level_of e
named value level_debug e = ap level_of e
named value level_trace e = ap level_of e

-- For a level other than INFO: it is chosen exactly for a value that is its name.
pub parse_level_iff :
    (value : Bytes) (level : Level)
    → level ≢ level_info
    → (parse_level (some value) ≡ level) ↔ (c_string value ≡ codes (level_name level))
unfolding parse_level level_name
parse_level_iff value level other = (
  by_tests (is_text value "ERROR") (is_text value "WARN") (is_text value "DEBUG")
      (is_text value "TRACE") refl refl refl refl,
  named value level,
)
  where
    as_named :
        (text : String) (l : Level)
        → codes (level_name l) ≡ codes text
        → is_text value text ≡ true
        → l ≡ level
        → c_string value ≡ codes (level_name level)
    as_named text l n e h =
        subst (λ l'. c_string value ≡ codes (level_name l')) h
          (bytes_eq→≡ (c_string value) (codes text) e ∙ sym n)

    by_tests :
        (b1 b2 b3 b4 : Bool)
        → is_text value "ERROR" ≡ b1
        → is_text value "WARN" ≡ b2
        → is_text value "DEBUG" ≡ b3
        → is_text value "TRACE" ≡ b4
        → (if b1
            then level_error
            else if b2
            then level_warn
            else if b3
            then level_debug
            else if b4
            then level_trace
            else level_info)
          ≡ level
        → c_string value ≡ codes (level_name level)
    by_tests true b2 b3 b4 e1 e2 e3 e4 h = as_named "ERROR" level_error refl e1 h
    by_tests false true b3 b4 e1 e2 e3 e4 h = as_named "WARN" level_warn refl e2 h
    by_tests false false true b4 e1 e2 e3 e4 h = as_named "DEBUG" level_debug refl e3 h
    by_tests false false false true e1 e2 e3 e4 h = as_named "TRACE" level_trace refl e4 h
    by_tests false false false false e1 e2 e3 e4 h = absurd (other (sym h))
