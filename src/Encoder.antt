-- ===== src/Encoder.antt =====
-- encoder.go, anyval.go and caller.go: how a field's value and a caller's place are written. The
-- encoders of encoder_json.go, encoder_logfmt.go and encoder_console.go are the children.
pub mod Append
pub mod Json
pub mod Logfmt
pub mod Console
use logger.Base.{
  ℕ, zero, ◌+◌, ◌≡◌, refl, Bool, true, false, Option, none, some, List, [], ◌∷◌, ◌++◌, Bytes, bytes,
  if◌then◌else◌, ◌==◌, ℤ, take, drop, to_i64, not,
}
use logger.Buffer.{write_string, write_byte, write_int, write_uint, write_bool, write_json_string}
use logger.Field.{
  Time, Duration, Field, Kind, kind_any, kind_string, kind_int64, kind_uint64, kind_float64,
  kind_bool, kind_duration, kind_time, kind_error, AnyVal, err_val, unix_time,
}
use logger.Record.{Record}

-- What encoding/json.Marshal returns: a text or an error.
pub data Marshalled : Type 0 where
  raw : Bytes → Marshalled
  failed : Bytes → Marshalled

-- The texts that the encoders get from Go's libraries: strconv.AppendFloat of a bit pattern,
-- Duration.String, Time.AppendFormat at RFC3339Nano and at any layout, Time.String, json.Marshal
-- and AppendQuote of Sprint on a value of another type, and the file and line that
-- runtime.CallersFrames finds for a program counter.
pub record Formats : Type 0 where
  pub float_text : ℕ → Bytes
  pub duration_text : Duration → Bytes
  pub rfc3339 : Time → Bytes
  pub layout : Bytes → Time → Bytes
  pub time_text : Time → Bytes
  pub marshal : ℕ → Marshalled
  pub sprint_quoted : ℕ → Bytes
  pub frame : ℕ → Bytes × ℤ

-- A text in quotes in JSON mode, plain otherwise.
unfoldable pub write_text : Bytes → Bool → Bytes → Bytes
write_text buf true s = write_json_string buf s
write_text buf false s = write_string buf s

-- `strings.LastIndexByte`
unfoldable pub last_index : Bytes → ℕ → Option ℕ
last_index [] c = none
last_index (x ∷ xs) c = elim (last_index xs c) [
  | some i ↦ some (i + 1)
  | none ↦ if x == c then some 0 else none
]

-- The last two elements of a path, or what there is of them.
trim_behind : Bytes → ℕ → Option ℕ → Bytes
trim_behind file i (some j) = drop (j + 1) file
trim_behind file i none = drop (i + 1) file

trim_at : Bytes → Option ℕ → Bytes
trim_at file none = file
trim_at file (some i) = trim_behind file i (last_index (take i file) b'/')

unfoldable pub trim_file : Bytes → Bytes
unfolding last_index trim_at trim_behind
trim_file file = trim_at file (last_index file b'/')

-- What is left of a path is an end of it.
pub trim_file-drop : (file : Bytes) → (n : ℕ) × (trim_file file ≡ drop n file)
unfolding trim_file trim_at trim_behind
trim_file-drop file = at (last_index file b'/')
  where
    behind : (i : ℕ) (o : Option ℕ) → (n : ℕ) × (trim_behind file i o ≡ drop n file)
    behind i (some j) = (j + 1, refl)
    behind i none = (i + 1, refl)

    at : (o : Option ℕ) → (n : ℕ) × (trim_at file o ≡ drop n file)
    at none = (0, refl)
    at (some i) = behind i (last_index (take i file) b'/')

module _ (fm : Formats) where
  open fm use {float_text, duration_text, rfc3339, time_text, marshal, sprint_quoted, frame}

  unfoldable pub write_float : Bytes → ℕ → Bytes
  write_float buf f = buf ++ float_text f

  unfoldable pub write_time : Bytes → Time → Bytes
  write_time buf t = buf ++ rfc3339 t

  -- A value that is of none of the types that `appendAny` tells apart.
  unfoldable pub append_other : Bytes → ℕ → Bool → Marshalled → Bytes
  append_other buf n false m = buf ++ sprint_quoted n
  append_other buf n true (raw text) = buf ++ text
  append_other buf n true (failed err) = write_json_string buf (bytes "!ERR:" ++ err)

  -- `appendAny`; a duration and an instant are Stringers.
  unfoldable pub append_any : Bytes → AnyVal → Bool → Bytes
  unfolding write_text write_float append_other
  append_any buf AnyVal.nil mode = write_string buf (bytes "null")
  append_any buf (AnyVal.string x) mode = write_text buf mode x
  append_any buf (AnyVal.bool x) mode = write_bool buf x
  append_any buf (AnyVal.int x) mode = write_int buf x
  append_any buf (AnyVal.int64 x) mode = write_int buf x
  append_any buf (AnyVal.uint64 x) mode = write_uint buf x
  append_any buf (AnyVal.float64 x) mode = write_float buf x
  append_any buf (AnyVal.duration x) mode = write_text buf mode (duration_text x)
  append_any buf (AnyVal.time x) mode = write_text buf mode (time_text x)
  append_any buf (AnyVal.error x) mode = write_text buf mode x
  append_any buf (AnyVal.stringer x) mode = write_text buf mode x
  append_any buf (AnyVal.other n) mode = append_other buf n mode (marshal n)

  -- The case `kindError`: a nil error is the text null, in quotes never.
  unfoldable pub append_error : Bytes → Bool → Option Bytes → Bytes
  unfolding write_text
  append_error buf mode none = write_string buf (bytes "null")
  append_error buf mode (some e) = write_text buf mode e

  unfoldable pub append_instant : Bytes → Bool → Time → Bytes
  unfolding write_time
  append_instant buf true t = write_byte (write_time (write_byte buf b'"') t) b'"'
  append_instant buf false t = write_time buf t

  unfoldable pub append_kind : Bytes → Field → Bool → Kind → Bytes
  unfolding write_text write_float append_any append_error append_instant
  append_kind buf f mode kind_string = write_text buf mode f.str
  append_kind buf f mode kind_int64 = write_int buf (to_i64 f.num)
  append_kind buf f mode kind_uint64 = write_uint buf f.num
  append_kind buf f mode kind_float64 = write_float buf f.num
  append_kind buf f mode kind_bool = write_bool buf (not (f.num == 0))
  append_kind buf f mode kind_duration = write_text buf mode (duration_text (to_i64 f.num))
  append_kind buf f mode kind_time = append_instant buf mode (unix_time f.num)
  append_kind buf f mode kind_error = append_error buf mode (err_val f)
  append_kind buf f mode kind_any = append_any buf f.any mode

  -- `appendFieldValue`
  unfoldable pub append_field_value : Bytes → Field → Bool → Bytes
  unfolding append_kind
  append_field_value buf f mode = append_kind buf f mode f.knd

  -- `r.source()`: the trimmed file and the line, if the caller was captured and is known.
  unfoldable pub source_of : Bytes × ℤ → Option (Bytes × ℤ)
  source_of ([], line) = none
  source_of (c ∷ cs, line) = some (trim_file (c ∷ cs), line)

  unfoldable pub source : Record → Option (Bytes × ℤ)
  unfolding source_of
  source r = if r.pc == 0 then none else source_of (frame r.pc)
