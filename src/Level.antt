-- ===== src/Level.antt =====
-- level.go: severities after the OpenTelemetry SeverityNumber, their names, and the sources of a
-- minimum level. `parseLevel` of admin.go reads a name or a number back.
pub mod Names
pub mod Control
use logger.Base.{
  ℕ, ◌+◌, ◌-◌, ◌≡◌, Bool, true, false, ◌&&◌, ◌||◌, Option, none, some, List, [], ◌∷◌, map, Bytes,
  bytes, bytes_eq, if◌then◌else◌, leb, ◌==◌, ℤ, pos, ltb_ℤ, leb_ℤ, append_int, atoi,
}

-- A Go `int`: any integer, the zero and the negative ones included.
abbrev pub Level : Type 0
Level = ℤ

abbrev pub level_trace : Level
level_trace = pos 1

abbrev pub level_debug : Level
level_debug = pos 5

abbrev pub level_info : Level
level_info = pos 9

abbrev pub level_warn : Level
level_warn = pos 13

abbrev pub level_error : Level
level_error = pos 17

abbrev pub level_fatal : Level
level_fatal = pos 21

-- `Level.String`
unfoldable pub string : Level → Bytes
string l =
    if leb_ℤ l (pos 0)
    then bytes "UNSPECIFIED"
    else if ltb_ℤ l level_debug
    then bytes "TRACE"
    else if ltb_ℤ l level_info
    then bytes "DEBUG"
    else if ltb_ℤ l level_warn
    then bytes "INFO"
    else if ltb_ℤ l level_error
    then bytes "WARN"
    else if ltb_ℤ l level_fatal
    then bytes "ERROR"
    else bytes "FATAL"

abbrev pub severity_number : Level → ℤ
severity_number l = l

-- `Level.lower`
unfoldable pub lower : Level → Bytes
lower l =
    if leb_ℤ l (pos 0)
    then bytes "unspecified"
    else if ltb_ℤ l level_debug
    then bytes "trace"
    else if ltb_ℤ l level_info
    then bytes "debug"
    else if ltb_ℤ l level_warn
    then bytes "info"
    else if ltb_ℤ l level_error
    then bytes "warn"
    else if ltb_ℤ l level_fatal
    then bytes "error"
    else bytes "fatal"

-- One byte of the loop of `MarshalText`.
unfoldable pub lower_byte : ℕ → ℕ
lower_byte c = if leb b'A' c && leb c b'Z' then c + (b'a' - b'A') else c

-- `Level.MarshalText`; its error is always nil.
unfoldable pub marshal_text : Level → Bytes
unfolding string lower_byte
marshal_text l = map lower_byte (string l)

unfoldable pub append_numeric : Level → Bytes
unfolding append_int
append_numeric l = append_int l

-- The space that `strings.TrimSpace` cuts off, among the ASCII bytes.
abbrev is_space : ℕ → Bool
is_space c = c == b' ' || (leb 9 c && leb c 13)

trim_left : Bytes → Bytes
trim_left [] = []
trim_left (c ∷ cs) = if is_space c then trim_left cs else c ∷ cs

-- What is left of `c ∷ t` for a trimmed `t`.
abbrev cons_trimmed : ℕ → Bytes → Bytes
cons_trimmed c [] = if is_space c then [] else c ∷ []
cons_trimmed c (d ∷ t) = c ∷ d ∷ t

trim_right : Bytes → Bytes
trim_right [] = []
trim_right (c ∷ cs) = cons_trimmed c (trim_right cs)

unfoldable pub trim_space : Bytes → Bytes
unfolding trim_left trim_right
trim_space s = trim_right (trim_left s)

abbrev in_range : Option ℤ → Option Level
in_range none = none
in_range (some n) = if leb_ℤ (pos 1) n && leb_ℤ n (pos 24) then some n else none

-- The `switch` and the number behind it, on the trimmed and lowered text.
unfoldable pub parse_lowered : Bytes → Option Level
parse_lowered s =
    if bytes_eq s (bytes "trace")
    then some level_trace
    else if bytes_eq s (bytes "debug")
    then some level_debug
    else if bytes_eq s (bytes "info")
    then some level_info
    else if bytes_eq s (bytes "warn") || bytes_eq s (bytes "warning")
    then some level_warn
    else if bytes_eq s (bytes "error")
    then some level_error
    else if bytes_eq s (bytes "fatal")
    then some level_fatal
    else in_range (atoi s)

-- `parseLevel` on ASCII text, on which `strings.ToLower` works byte by byte.
unfoldable pub parse_level : Bytes → Option Level
unfolding parse_lowered trim_space lower_byte bytes_eq atoi
parse_level s = parse_lowered (trim_space (map lower_byte s))

-- `LevelVar`, by the integer that it holds.
pub record LevelVar : Type 0 where
  pub v : ℤ

unfoldable pub new_level_var : Level → LevelVar
new_level_var l = record { v = l }

unfoldable pub level_of : LevelVar → Level
level_of lv = lv.v

unfoldable pub set_level : LevelVar → Level → LevelVar
set_level lv l = record lv { v = l }
