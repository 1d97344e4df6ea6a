-- ===== src/Encoder/Append.antt =====
-- Every writer of encoder.go only appends: what it writes does not depend on what stands before.
use logger.Base.{
  ℕ, ◌≡◌, refl, sym, ap, ◌∙◌, Bool, true, false, Option, none, some, [], ◌++◌, append_assoc, Bytes,
  bytes,
}
use logger.Buffer.{write_string, write_byte, write_int, write_uint, write_bool, write_json_string}
use logger.Buffer.JsonString.{write_json_string-quoted}
use logger.Field.{
  Time, Field, Kind, kind_any, kind_string, kind_int64, kind_uint64, kind_float64, kind_bool,
  kind_duration, kind_time, kind_error, AnyVal,
}
use logger.Encoder.{
  Formats, Marshalled, raw, failed, write_text, write_float, write_time, append_other, append_any,
  append_error, append_instant, append_kind, append_field_value,
}

-- A writer, by what it writes into an empty buffer.
abbrev pub Appends : (Bytes → Bytes) → Type 0
Appends w = (buf : Bytes) → w buf ≡ buf ++ w []

pub write_json_string-Appends : (s : Bytes) → Appends (λ b. write_json_string b s)
write_json_string-Appends s buf =
    write_json_string-quoted buf s ∙ ap (λ t. buf ++ t) (sym (write_json_string-quoted [] s))

write_text-Appends : (m : Bool) (s : Bytes) → Appends (λ b. write_text b m s)
unfolding write_text write_string
write_text-Appends true s = write_json_string-Appends s
write_text-Appends false s = λ buf. refl

write_bool-Appends : (v : Bool) → Appends (λ b. write_bool b v)
unfolding write_bool
write_bool-Appends true = λ buf. refl
write_bool-Appends false = λ buf. refl

module _ (fm : Formats) where
  append_other-Appends :
      (n : ℕ) (mode : Bool) (m : Marshalled) → Appends (λ b. append_other fm b n mode m)
  unfolding append_other
  append_other-Appends n false m = λ buf. refl
  append_other-Appends n true (raw text) = λ buf. refl
  append_other-Appends n true (failed err) = write_json_string-Appends (bytes "!ERR:" ++ err)

  append_any-Appends : (v : AnyVal) (mode : Bool) → Appends (λ b. append_any fm b v mode)
  unfolding append_any write_string write_int write_uint write_float
  append_any-Appends AnyVal.nil mode = λ buf. refl
  append_any-Appends (AnyVal.string x) mode = write_text-Appends mode x
  append_any-Appends (AnyVal.bool x) mode = write_bool-Appends x
  append_any-Appends (AnyVal.int x) mode = λ buf. refl
  append_any-Appends (AnyVal.int64 x) mode = λ buf. refl
  append_any-Appends (AnyVal.uint64 x) mode = λ buf. refl
  append_any-Appends (AnyVal.float64 x) mode = λ buf. refl
  append_any-Appends (AnyVal.duration x) mode = write_text-Appends mode _
  append_any-Appends (AnyVal.time x) mode = write_text-Appends mode _
  append_any-Appends (AnyVal.error x) mode = write_text-Appends mode x
  append_any-Appends (AnyVal.stringer x) mode = write_text-Appends mode x
  append_any-Appends (AnyVal.other n) mode = append_other-Appends n mode _

  append_error-Appends : (mode : Bool) (e : Option Bytes) → Appends (λ b. append_error fm b mode e)
  unfolding append_error write_string
  append_error-Appends mode none = λ buf. refl
  append_error-Appends mode (some e) = write_text-Appends mode e

  append_instant-Appends : (mode : Bool) (t : Time) → Appends (λ b. append_instant fm b mode t)
  unfolding append_instant write_byte write_time
  append_instant-Appends true t = λ buf. simp append_assoc
  append_instant-Appends false t = λ buf. refl

  append_kind-Appends :
      (f : Field) (mode : Bool) (k : Kind) → Appends (λ b. append_kind fm b f mode k)
  unfolding append_kind write_int write_uint write_float
  append_kind-Appends f mode kind_string = write_text-Appends mode f.str
  append_kind-Appends f mode kind_int64 = λ buf. refl
  append_kind-Appends f mode kind_uint64 = λ buf. refl
  append_kind-Appends f mode kind_float64 = λ buf. refl
  append_kind-Appends f mode kind_bool = write_bool-Appends _
  append_kind-Appends f mode kind_duration = write_text-Appends mode _
  append_kind-Appends f mode kind_time = append_instant-Appends mode _
  append_kind-Appends f mode kind_error = append_error-Appends mode _
  append_kind-Appends f mode kind_any = append_any-Appends f.any mode

  -- A field's value is written behind whatever the buffer holds, in the same way.
  pub append_field_value-Appends :
      (f : Field) (mode : Bool) → Appends (λ b. append_field_value fm b f mode)
  unfolding append_field_value
  append_field_value-Appends f mode = append_kind-Appends f mode f.knd
