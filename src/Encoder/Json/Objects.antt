-- ===== src/Encoder/Json/Objects.antt =====
-- The JSON encoder against a description of its objects that does not use the encoder: what the value
-- of each kind of field looks like.
use logger.Base.{
  ℕ, ◌≡◌, refl, ap, ap₂, ◌∙◌, Bool, true, false, not, Option, none, some, List, [], ◌∷◌, ◌++◌, map,
  Bytes, bytes, ◌==◌, if◌then◌else◌, append_int, decimal, to_i64,
}
use logger.Buffer.{write_byte, write_string, write_int, write_uint, write_bool}
use logger.Buffer.JsonString.{quoted, write_json_string-quoted}
use logger.Field.{
  Field, Kind, kind_any, kind_string, kind_int64, kind_uint64, kind_float64, kind_bool,
  kind_duration, kind_time, kind_error, AnyVal, err_val, unix_time,
}
use logger.Record.{Record}
use logger.Encoder.{
  Formats, Marshalled, raw, failed, write_text, write_float, write_time, append_other, append_any,
  append_error, append_instant, append_kind, append_field_value, source,
}
use logger.Encoder.Json.{JsonEncoder, key_or, encode}
use logger.Encoder.Json.Lines.{
  member, joined, time_members, level_text, event_members, caller_members, field_member,
  encode-members,
}

abbrev bool_text : Bool → Bytes
bool_text b = if b then bytes "true" else bytes "false"

abbrev null_or_quoted : Option Bytes → Bytes
null_or_quoted none = bytes "null"
null_or_quoted (some s) = quoted s

-- What json.Marshal has made of a value, or else its error as a string.
abbrev marshalled_text : Marshalled → Bytes
marshalled_text (raw text) = text
marshalled_text (failed err) = quoted (bytes "!ERR:" ++ err)

module _ (fm : Formats) where
  -- Texts, errors, durations and what has a String method are strings, integers their digits, and a
  -- float the text that strconv gives it.
  unfoldable pub any_text : AnyVal → Bytes
  any_text AnyVal.nil = bytes "null"
  any_text (AnyVal.string x) = quoted x
  any_text (AnyVal.bool x) = bool_text x
  any_text (AnyVal.int x) = append_int x
  any_text (AnyVal.int64 x) = append_int x
  any_text (AnyVal.uint64 x) = decimal x
  any_text (AnyVal.float64 x) = fm.float_text x
  any_text (AnyVal.duration x) = quoted (fm.duration_text x)
  any_text (AnyVal.time x) = quoted (fm.time_text x)
  any_text (AnyVal.error x) = quoted x
  any_text (AnyVal.stringer x) = quoted x
  any_text (AnyVal.other n) = marshalled_text (fm.marshal n)

  unfoldable pub kind_text : Kind → Field → Bytes
  unfolding any_text err_val unix_time
  kind_text kind_string f = quoted f.str
  kind_text kind_int64 f = append_int (to_i64 f.num)
  kind_text kind_uint64 f = decimal f.num
  kind_text kind_float64 f = fm.float_text f.num
  kind_text kind_bool f = bool_text (not (f.num == 0))
  kind_text kind_duration f = quoted (fm.duration_text (to_i64 f.num))
  kind_text kind_time f = b'"' ∷ (fm.rfc3339 (unix_time f.num) ++ (b'"' ∷ []))
  kind_text kind_error f = null_or_quoted (err_val f)
  kind_text kind_any f = any_text f.any

  write_text_lem : (s : Bytes) → write_text [] true s ≡ quoted s
  unfolding write_text
  write_text_lem s = write_json_string-quoted [] s

  write_bool_lem : (b : Bool) → write_bool [] b ≡ bool_text b
  unfolding write_bool
  write_bool_lem true = refl
  write_bool_lem false = refl

  append_other_lem : (n : ℕ) (m : Marshalled) → append_other fm [] n true m ≡ marshalled_text m
  unfolding append_other
  append_other_lem n (raw text) = refl
  append_other_lem n (failed err) = write_json_string-quoted [] (bytes "!ERR:" ++ err)

  append_any_lem : (v : AnyVal) → append_any fm [] v true ≡ any_text v
  unfolding append_any any_text write_string write_int write_uint write_float
  append_any_lem AnyVal.nil = refl
  append_any_lem (AnyVal.string x) = write_text_lem x
  append_any_lem (AnyVal.bool x) = write_bool_lem x
  append_any_lem (AnyVal.int x) = refl
  append_any_lem (AnyVal.int64 x) = refl
  append_any_lem (AnyVal.uint64 x) = refl
  append_any_lem (AnyVal.float64 x) = refl
  append_any_lem (AnyVal.duration x) = write_text_lem (fm.duration_text x)
  append_any_lem (AnyVal.time x) = write_text_lem (fm.time_text x)
  append_any_lem (AnyVal.error x) = write_text_lem x
  append_any_lem (AnyVal.stringer x) = write_text_lem x
  append_any_lem (AnyVal.other n) = append_other_lem n (fm.marshal n)

  append_error_lem : (e : Option Bytes) → append_error fm [] true e ≡ null_or_quoted e
  unfolding append_error write_string
  append_error_lem none = refl
  append_error_lem (some e) = write_text_lem e

  append_kind_lem : (k : Kind) (f : Field) → append_kind fm [] f true k ≡ kind_text k f
  unfolding append_kind kind_text append_instant write_int write_uint write_float write_byte
      write_time
  append_kind_lem kind_string f = write_text_lem f.str
  append_kind_lem kind_int64 f = refl
  append_kind_lem kind_uint64 f = refl
  append_kind_lem kind_float64 f = refl
  append_kind_lem kind_bool f = write_bool_lem (not (f.num == 0))
  append_kind_lem kind_duration f = write_text_lem (fm.duration_text (to_i64 f.num))
  append_kind_lem kind_time f = refl
  append_kind_lem kind_error f = append_error_lem (err_val f)
  append_kind_lem kind_any f = append_any_lem f.any

  abbrev pub described_field : Field → Bytes
  described_field f = member f.key (kind_text f.knd f)

  fields_lem :
      (e : JsonEncoder) (fs : List Field) → map (field_member fm e) fs ≡ map described_field fs
  unfolding append_field_value
  fields_lem e [] = refl
  fields_lem e (f ∷ fs) = ap₂ ◌∷◌ (ap (member f.key) (append_kind_lem f.knd f)) (fields_lem e fs)

  -- All members of a record but the time.
  abbrev pub described : JsonEncoder → Record → List Bytes
  described e r =
      (member (key_or (bytes "level") e.level_key) (level_text fm e r)
        ∷ member (key_or (bytes "msg") e.msg_key) (quoted r.message)
        ∷ [])
      ++ (event_members fm e r.event_name
          ++ (caller_members fm e (source fm r) ++ map described_field r.fields))

  -- `Encode` appends an opening brace, members with commas between them, a closing brace and a line
  -- feed. The members are in order: the time unless it is zero, the level by name or number, the
  -- message, the event's name if it has one, the caller if it is known, and the fields in their
  -- order. Each field has its key as a string, and a value by its kind: for a text, an error, a
  -- duration or a value with a String method the string of its text, for an instant its text in
  -- quotes, for an integer its digits, true or false, null for a nil value, what json.Marshal returns
  -- for any other value or its error as a string, and for a float the text that strconv gives it,
  -- which for NaN and the infinities is not JSON.
  pub encode_object :
      (e : JsonEncoder) (buf : Bytes) (r : Record)
      → encode fm e buf r
        ≡ buf ++ (b'{' ∷ (joined (time_members fm e r ++ described e r) ++ (b'}' ∷ b'\n' ∷ [])))
  encode_object e buf r =
      encode-members fm e buf r
      ∙ ap
          (λ fs.
            buf
            ++ (b'{'
                ∷ (joined (
                      time_members fm e r
                      ++ ((member (key_or (bytes "level") e.level_key) (level_text fm e r)
                            ∷ member (key_or (bytes "msg") e.msg_key) (quoted r.message)
                            ∷ [])
                          ++ (event_members fm e r.event_name
                              ++ (caller_members fm e (source fm r) ++ fs))))
                    ++ (b'}' ∷ b'\n' ∷ []))))
          (fields_lem e r.fields)
