-- ===== src/Encoder/Logfmt.antt =====
-- encoder_logfmt.go: one line of key=value pairs.
pub mod Values
use logger.Base.{
  ℕ, Bool, true, false, not, ◌||◌, Option, none, some, List, [], ◌∷◌, Bytes, bytes, if◌then◌else◌,
  ◌==◌, ℤ, pos, eq_ℤ,
}
use logger.Level.{lower}
use logger.Buffer.{write_string, write_byte, write_int, write_json_string}
use logger.Field.{Field, Kind, kind_string, kind_error, err_val}
use logger.Record.{Record}
use logger.Encoder.{Formats, write_time, append_field_value, source}

-- The bytes of the `ContainsAny` test: a space, an equals sign, a quote, a line feed, a tab.
unfoldable pub is_special : ℕ → Bool
is_special c = (c == b' ') || ((c == b'=') || ((c == b'"') || ((c == b'\n') || (c == b'\t'))))

unfoldable pub contains_special : Bytes → Bool
contains_special [] = false
contains_special (c ∷ cs) = is_special c || contains_special cs

unfoldable pub logfmt_needs_quote : Bytes → Bool
unfolding contains_special
logfmt_needs_quote [] = true
logfmt_needs_quote (c ∷ cs) = contains_special (c ∷ cs)

unfoldable pub write_logfmt_value : Bytes → Bytes → Bytes
write_logfmt_value buf s =
    if logfmt_needs_quote s then write_json_string buf s else write_string buf s

unfoldable pub logfmt_error : Bytes → Option Bytes → Bytes
logfmt_error buf none = write_string buf (bytes "null")
logfmt_error buf (some e) = write_logfmt_value buf e

-- The switch on a field's kind.
unfoldable pub logfmt_field : Formats → Bytes → Field → Kind → Bytes
unfolding logfmt_error
logfmt_field fm buf f kind_string = write_logfmt_value buf f.str
logfmt_field fm buf f kind_error = logfmt_error buf (err_val f)
logfmt_field fm buf f k = append_field_value fm buf f false

unfoldable pub logfmt_fields : Formats → Bytes → List Field → Bytes
unfolding logfmt_field
logfmt_fields fm buf [] = buf
logfmt_fields fm buf (f ∷ fs) =
    logfmt_fields fm
      (logfmt_field fm (write_byte (write_string (write_byte buf b' ') f.key) b'=') f f.knd) fs

unfoldable pub logfmt_caller : Bytes → Option (Bytes × ℤ) → Bytes
logfmt_caller buf none = buf
logfmt_caller buf (some (file, line)) =
    let b = write_byte (write_string buf (bytes " caller=")) b'"' in
    write_byte (write_int (write_byte (write_string b file) b':') line) b'"'

unfoldable pub logfmt_time : Formats → Bytes → Record → Bytes
logfmt_time fm buf r =
    if not (eq_ℤ r.time (pos 0))
    then write_byte
        (write_byte (write_time fm (write_byte (write_string buf (bytes "time=")) b'"') r.time)
          b'"')
        b' '
    else buf

-- `LogfmtEncoder.Encode`
unfoldable pub encode : Formats → Bytes → Record → Bytes
unfolding logfmt_fields logfmt_caller logfmt_time
encode fm buf r =
    let levelled =
      write_string (write_string (logfmt_time fm buf r) (bytes "level=")) (lower r.level) in
    let said = write_logfmt_value (write_string levelled (bytes " msg=")) r.message in
    write_byte (logfmt_fields fm (logfmt_caller said (source fm r)) r.fields) b'\n'
