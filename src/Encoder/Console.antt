-- ===== src/Encoder/Console.antt =====
-- encoder_console.go: a line for people.
use logger.Base.{
  ◌-◌, Bool, true, false, Option, none, some, List, [], ◌∷◌, length, take, Bytes, bytes,
  if◌then◌else◌, ℤ, ltb_ℤ,
}
use logger.Level.{Level, lower, level_debug, level_info, level_warn, level_error}
use logger.Buffer.{write_string, write_byte, write_int}
use logger.Field.{Field}
use logger.Record.{Record}
use logger.Encoder.{Formats, append_field_value, source}

pub record ConsoleEncoder : Type 0 where
  pub color : Bool
  pub time_format : Bytes

abbrev pub default_format : Bytes
default_format = bytes "15:04:05.000"

unfoldable pub new_console_encoder : ConsoleEncoder
new_console_encoder = record { color = false; time_format = default_format }

-- The escape byte and the left bracket of an ANSI sequence, and its text.
abbrev pub ansi : Bytes → Bytes
ansi text = 27 ∷ b'[' ∷ text

unfoldable pub level_color : Level → Bytes
level_color l =
    if ltb_ℤ l level_debug
    then ansi (bytes "90m")
    else if ltb_ℤ l level_info
    then ansi (bytes "36m")
    else if ltb_ℤ l level_warn
    then ansi (bytes "32m")
    else if ltb_ℤ l level_error
    then ansi (bytes "33m")
    else ansi (bytes "31m")

-- An escape sequence, in colour only.
unfoldable pub write_ansi : Bytes → Bool → Bytes → Bytes
write_ansi buf true text = write_string buf (ansi text)
write_ansi buf false text = buf

-- `"     "[:5-len(lvl)]`, empty for a longer name; subtraction stops at 0.
unfoldable pub pad : Bytes → Bytes
pad lvl = take (5 - length lvl) (bytes "     ")

unfoldable pub console_level : Bytes → Bool → Level → Bytes
unfolding pad level_color write_ansi
console_level buf true l =
    write_ansi
      (write_string (write_string (write_string buf (level_color l)) (lower l)) (pad (lower l)))
      true (bytes "0m")
console_level buf false l = write_string (write_string buf (lower l)) (pad (lower l))

unfoldable pub console_caller : Bytes → Bool → Option (Bytes × ℤ) → Bytes
unfolding write_ansi
console_caller buf color none = buf
console_caller buf color (some (file, line)) =
    let opened = write_byte (write_ansi (write_byte buf b' ') color (bytes "2m")) b'<' in
    write_ansi (write_byte (write_int (write_byte (write_string opened file) b':') line) b'>') color
      (bytes "0m")

unfoldable pub console_fields : Formats → Bool → Bytes → List Field → Bytes
unfolding write_ansi
console_fields fm color buf [] = buf
console_fields fm color buf (f ∷ fs) =
    let key = write_string (write_ansi (write_byte buf b' ') color (bytes "2m")) f.key in
    console_fields fm color
      (append_field_value fm (write_ansi (write_byte key b'=') color (bytes "0m")) f false) fs

unfoldable pub format_or : Bytes → Bytes
format_or [] = default_format
format_or (c ∷ cs) = c ∷ cs

-- `ConsoleEncoder.Encode`
unfoldable pub encode : Formats → ConsoleEncoder → Bytes → Record → Bytes
unfolding format_or console_level console_caller console_fields
encode fm e buf r =
    let timed = write_byte (write_string buf (fm.layout (format_or e.time_format) r.time)) b' ' in
    let said = write_string (write_byte (console_level timed e.color r.level) b' ') r.message in
    write_byte (console_fields fm e.color (console_caller said e.color (source fm r)) r.fields)
      b'\n'
