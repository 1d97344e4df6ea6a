-- ===== src/Encoder/Json/Printable.antt =====
-- No text of a record can break its JSON line: what the encoder writes holds no control byte.
use logger.Base.{
  ℕ, zero, suc, drop, ◌≡◌, sym, subst, ◌∙◌, Bool, true, false, not, List, [], ◌∷◌, ◌++◌, map, All,
  All-append, append_assoc, Bytes, bytes, ◌==◌, Bool-cases, inl, inr, arith, ℤ, pos, negsuc, eq_ℤ,
  append_int, decimal, decimal-IsDigit, IsDigit, to_i64,
}
use logger.Level.{Level, lower}
use logger.Buffer.{write_string, write_byte, write_int, write_uint, write_bool}
use logger.Buffer.JsonString.{
  IsByte, IsPrintable, quoted, quoted-IsPrintable, write_json_string-IsPrintable,
}
use logger.Field.{
  Time, Duration, Field, Kind, kind_any, kind_string, kind_int64, kind_uint64, kind_float64,
  kind_bool, kind_duration, kind_time, kind_error, AnyVal, as_error, err_val, unix_time,
}
use logger.Record.{Record}
use logger.Encoder.{
  Formats, Marshalled, raw, failed, write_text, write_float, write_time, append_other, append_any,
  append_error, append_instant, append_kind, append_field_value, source_of, source, trim_file,
  trim_file-drop,
}
use logger.Encoder.Json.{JsonEncoder, key_or, encode}
use logger.Encoder.Json.Lines.{
  member, commas, joined, time_members, level_text, event_members, caller_members, field_member,
  members, encode-members,
}

abbrev pub Printable : Bytes → Type 0
Printable = All IsPrintable

abbrev pub IsText : Bytes → Type 0
IsText = All IsByte

abbrev pub MarshalledPrintable : Marshalled → Type 0
MarshalledPrintable (raw text) = Printable text
MarshalledPrintable (failed err) = IsText err

-- What Go's libraries write: strconv, time and encoding/json no control byte, and the name of a
-- source file has none.
pub record FormatsPrintable (fm : Formats) : Type 0 where
  pub floats : (bits : ℕ) → Printable (fm.float_text bits)
  pub times : (t : Time) → Printable (fm.rfc3339 t)
  pub durations : (d : Duration) → IsText (fm.duration_text d)
  pub time_texts : (t : Time) → IsText (fm.time_text t)
  pub marshals : (n : ℕ) → MarshalledPrintable (fm.marshal n)
  pub files : (pc : ℕ) → Printable (fm.frame pc).0

-- A Go string is a list of bytes.
abbrev pub AnyIsText : AnyVal → Type 0
AnyIsText (AnyVal.string x) = IsText x
AnyIsText (AnyVal.error x) = IsText x
AnyIsText (AnyVal.stringer x) = IsText x
AnyIsText _ = Unit {0}

pub record FieldIsText (f : Field) : Type 0 where
  pub key : IsText f.key
  pub str : IsText f.str
  pub any : AnyIsText f.any

pub record RecordIsText (r : Record) : Type 0 where
  pub message : IsText r.message
  pub event : IsText r.event_name
  pub fields : All FieldIsText r.fields

digits-Printable : (s : Bytes) → All IsDigit s → Printable s
digits-Printable [] h = tt
digits-Printable (c ∷ cs) h = (omega (arith, h.0), digits-Printable cs h.1)

append_int-Printable : (z : ℤ) → Printable (append_int z)
unfolding append_int
append_int-Printable (pos n) = digits-Printable (decimal n) (decimal-IsDigit n)
append_int-Printable (negsuc n) =
    (omega arith, digits-Printable (decimal (suc n)) (decimal-IsDigit (suc n)))

lower-IsText : (l : Level) → IsText (lower l)
unfolding lower
lower-IsText l = ground arith

write_bool-Printable : (b : Bool) → Printable (write_bool [] b)
unfolding write_bool
write_bool-Printable true = omega arith
write_bool-Printable false = omega arith

module _ (fm : Formats) (h : FormatsPrintable fm) where
  append_other-Printable :
      (n : ℕ) (m : Marshalled) → MarshalledPrintable m → Printable (append_other fm [] n true m)
  unfolding append_other
  append_other-Printable n (raw text) k = k
  append_other-Printable n (failed err) k =
      write_json_string-IsPrintable (bytes "!ERR:" ++ err)
        (All-append IsByte (bytes "!ERR:") err (omega arith) k)

  append_any-Printable : (v : AnyVal) → AnyIsText v → Printable (append_any fm [] v true)
  unfolding append_any write_text write_string write_int write_uint write_float
  append_any-Printable AnyVal.nil k = omega arith
  append_any-Printable (AnyVal.string x) k = write_json_string-IsPrintable x k
  append_any-Printable (AnyVal.bool x) k = write_bool-Printable x
  append_any-Printable (AnyVal.int x) k = append_int-Printable x
  append_any-Printable (AnyVal.int64 x) k = append_int-Printable x
  append_any-Printable (AnyVal.uint64 x) k = digits-Printable (decimal x) (decimal-IsDigit x)
  append_any-Printable (AnyVal.float64 x) k = h.floats x
  append_any-Printable (AnyVal.duration x) k = write_json_string-IsPrintable _ (h.durations x)
  append_any-Printable (AnyVal.time x) k = write_json_string-IsPrintable _ (h.time_texts x)
  append_any-Printable (AnyVal.error x) k = write_json_string-IsPrintable x k
  append_any-Printable (AnyVal.stringer x) k = write_json_string-IsPrintable x k
  append_any-Printable (AnyVal.other n) k = append_other-Printable n (fm.marshal n) (h.marshals n)

  append_error-Printable :
      (v : AnyVal) → AnyIsText v → Printable (append_error fm [] true (as_error v))
  unfolding append_error write_text write_string
  append_error-Printable (AnyVal.error x) k = write_json_string-IsPrintable x k
  append_error-Printable _ k = omega arith

  append_instant-Printable : (t : Time) → Printable (append_instant fm [] true t)
  unfolding append_instant write_byte write_time
  append_instant-Printable t =
      (omega arith, All-append IsPrintable (fm.rfc3339 t) (b'"' ∷ []) (h.times t) (omega arith))

  append_kind-Printable :
      (f : Field) (k : Kind) → FieldIsText f → Printable (append_kind fm [] f true k)
  unfolding append_kind err_val write_text write_string write_int write_uint write_float
  append_kind-Printable f kind_string v = write_json_string-IsPrintable f.str v.str
  append_kind-Printable f kind_int64 v = append_int-Printable (to_i64 f.num)
  append_kind-Printable f kind_uint64 v = digits-Printable (decimal f.num) (decimal-IsDigit f.num)
  append_kind-Printable f kind_float64 v = h.floats f.num
  append_kind-Printable f kind_bool v = write_bool-Printable (not (f.num == 0))
  append_kind-Printable f kind_duration v = write_json_string-IsPrintable _ (h.durations _)
  append_kind-Printable f kind_time v = append_instant-Printable (unix_time f.num)
  append_kind-Printable f kind_error v = append_error-Printable f.any v.any
  append_kind-Printable f kind_any v = append_any-Printable f.any v.any

drop-Printable : (n : ℕ) (s : Bytes) → Printable s → Printable (drop n s)
drop-Printable zero s h = h
drop-Printable (suc n) [] h = tt
drop-Printable (suc n) (c ∷ cs) h = drop-Printable n cs h.1

trim_file-Printable : (file : Bytes) → Printable file → Printable (trim_file file)
trim_file-Printable file h =
    let (n, e) = trim_file-drop file in subst Printable (sym e) (drop-Printable n file h)

member-Printable : (key value : Bytes) → IsText key → Printable value → Printable (member key value)
member-Printable key value k v =
    All-append IsPrintable (quoted key) (b':' ∷ value) (quoted-IsPrintable key k) (omega arith, v)

commas-Printable : (ms : List Bytes) → All Printable ms → Printable (commas ms)
commas-Printable [] h = tt
commas-Printable (m ∷ ms) h =
    (omega arith, All-append IsPrintable m (commas ms) h.0 (commas-Printable ms h.1))

joined-Printable : (ms : List Bytes) → All Printable ms → Printable (joined ms)
joined-Printable [] h = tt
joined-Printable (m ∷ ms) h = All-append IsPrintable m (commas ms) h.0 (commas-Printable ms h.1)

key_or-IsText : (default key : Bytes) → IsText default → IsText key → IsText (key_or default key)
key_or-IsText default [] d k = d
key_or-IsText default (c ∷ cs) d k = k

-- The keys that a JSON encoder is given.
pub record KeysAreText (e : JsonEncoder) : Type 0 where
  pub time : IsText e.time_key
  pub level : IsText e.level_key
  pub message : IsText e.msg_key

module _ (fm : Formats) (h : FormatsPrintable fm) (e : JsonEncoder) (k : KeysAreText e) where
  source_of-Printable :
      (file : Bytes) (line : ℤ)
      → Printable file
      → All Printable (caller_members fm e (source_of fm (file, line)))
  unfolding source_of
  source_of-Printable [] line h = tt
  source_of-Printable (c ∷ cs) line h =
      let trimmed = trim_file-Printable (c ∷ cs) h in
      let place =
        All-append IsPrintable (trim_file (c ∷ cs)) (b':' ∷ (append_int line ++ (b'"' ∷ [])))
          trimmed
          (
            omega arith,
            All-append IsPrintable (append_int line) (b'"' ∷ []) (append_int-Printable line)
                (omega arith),
          ) in
      (member-Printable (bytes "caller") (b'"' ∷ _) (omega arith) (omega arith, place), tt)

  event_members-Printable : (name : Bytes) → IsText name → All Printable (event_members fm e name)
  event_members-Printable [] h = tt
  event_members-Printable (c ∷ cs) h = (
    member-Printable (bytes "event") (quoted (c ∷ cs)) (omega arith)
        (quoted-IsPrintable (c ∷ cs) h),
    tt,
  )

  time_members-Printable : (r : Record) → All Printable (time_members fm e r)
  time_members-Printable r = elim (Bool-cases (eq_ℤ r.time (pos 0))) [
    | inl z ↦ rw z tt
    | inr t ↦ rw t (
      member-Printable (key_or (bytes "time") e.time_key)
          (b'"' ∷ (fm.rfc3339 r.time ++ (b'"' ∷ [])))
          (key_or-IsText (bytes "time") e.time_key (omega arith) k.time)
          (
            omega arith,
            All-append IsPrintable (fm.rfc3339 r.time) (b'"' ∷ []) (h.times r.time) (omega arith),
          ),
      tt,
    )
  ]

  level_text-Printable : (r : Record) → Printable (level_text fm e r)
  level_text-Printable r = elim (Bool-cases e.numeric_level) [
    | inl n ↦ rw n (append_int-Printable r.level)
    | inr n ↦ rw n (quoted-IsPrintable (lower r.level) (lower-IsText r.level))
  ]

  fields-Printable :
      (fs : List Field) → All FieldIsText fs → All Printable (map (field_member fm e) fs)
  unfolding append_field_value
  fields-Printable [] v = tt
  fields-Printable (f ∷ fs) v = (
    member-Printable f.key (append_field_value fm [] f true) v.0.key
        (append_kind-Printable fm h f f.knd v.0),
    fields-Printable fs v.1,
  )

  source-Printable : (r : Record) → All Printable (caller_members fm e (source fm r))
  unfolding source
  source-Printable r = elim (Bool-cases (r.pc == 0)) [
    | inl z ↦ rw z tt
    | inr n ↦ rw n (source_of-Printable (fm.frame r.pc).0 (fm.frame r.pc).1 (h.files r.pc))
  ]

  members-Printable :
      (r : Record) → RecordIsText r → All Printable (time_members fm e r ++ members fm e r)
  members-Printable r v =
      let level =
        member-Printable (key_or (bytes "level") e.level_key) (level_text fm e r)
          (key_or-IsText (bytes "level") e.level_key (omega arith) k.level)
          (level_text-Printable r) in
      let message =
        member-Printable (key_or (bytes "msg") e.msg_key) (quoted r.message)
          (key_or-IsText (bytes "msg") e.msg_key (omega arith) k.message)
          (quoted-IsPrintable r.message v.message) in
      All-append Printable (time_members fm e r) (members fm e r) (time_members-Printable r) (
        level,
        (
          message,
          All-append Printable (event_members fm e r.event_name) _
              (event_members-Printable r.event_name v.event)
              (All-append Printable (caller_members fm e (source fm r)) _ (source-Printable r)
                (fields-Printable r.fields v.fields)),
        ),
      )

  -- Whatever bytes the texts of a record are made of, its line is one text with no control byte and
  -- a line feed behind it: no message, key or value can start another line. Used of Go's libraries
  -- is that the texts they write for numbers, times, files and JSON values hold no control byte.
  pub encode_one_line :
      (r : Record)
      → RecordIsText r
      → (text : Bytes) × (encode fm e [] r ≡ text ++ (b'\n' ∷ [])) × Printable text
  encode_one_line r v =
      let body = joined (time_members fm e r ++ members fm e r) in
      let text = b'{' ∷ (body ++ (b'}' ∷ [])) in
      (
        text,
        encode-members fm e [] r ∙ simp append_assoc,
        (
          omega arith,
          All-append IsPrintable body (b'}' ∷ []) (joined-Printable _ (members-Printable r v))
              (omega arith),
        ),
      )
