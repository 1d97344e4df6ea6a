-- ===== src/Field.antt =====
-- field.go and math.go: structured key/value pairs, their constructors and accessors.
pub mod Values
use logger.Base.{
  ℕ, ◌+◌, ◌*◌, ◌-◌, ◌^◌, Bool, true, false, not, Option, none, some, [], Bytes, bytes,
  if◌then◌else◌, ◌==◌, ℤ, pos, negsuc, ◌+ℤ◌, ◌-ℤ◌, ltb_ℤ, to_u64, to_i64,
}

-- An instant, in nanoseconds after the zero `time.Time`.
abbrev pub Time : Type 0
Time = ℤ

-- The Unix epoch is 62135596800 seconds after the zero instant.
abbrev pub unix_epoch : Time
unix_epoch = pos (62135596800 * 1000000000)

-- Nanoseconds, an `int64`.
abbrev pub Duration : Type 0
Duration = ℤ

pub data Kind : Type 0 where
  kind_any kind_string kind_int64 kind_uint64 kind_float64 kind_bool : Kind
  kind_duration kind_time kind_error : Kind

-- A value of Go type `any`, by the dynamic types that the program tells apart. An error and a
-- fmt.Stringer are the texts of their methods; a float is its IEEE bit pattern; `other` is a value
-- of any further type, by an identity.
pub data AnyVal : Type 0 where
  nil : AnyVal
  string : Bytes → AnyVal
  bool : Bool → AnyVal
  int : ℤ → AnyVal
  int64 : ℤ → AnyVal
  uint64 : ℕ → AnyVal
  float64 : ℕ → AnyVal
  duration : Duration → AnyVal
  time : Time → AnyVal
  error : Bytes → AnyVal
  stringer : Bytes → AnyVal
  other : ℕ → AnyVal

pub record Field : Type 0 where
  pub key : Bytes
  pub knd : Kind
  pub num : ℕ
  pub str : Bytes
  pub any : AnyVal

abbrev zero_field : Bytes → Kind → Field
zero_field key k = record { key = key; knd = k; num = 0; str = []; any = AnyVal.nil }

unfoldable pub string_field : Bytes → Bytes → Field
string_field key val = record (zero_field key kind_string) { str = val }

-- The type argument of `Int`: a signed or unsigned integer type of so many bits.
pub data IntType : Type 0 where
  signed : ℕ → IntType
  unsigned : ℕ → IntType

-- `T(0) - 1`, which wraps in an unsigned type.
unfoldable pub zero_minus_one : IntType → ℤ
zero_minus_one (signed w) = negsuc 0
zero_minus_one (unsigned w) = pos (2 ^ w - 1)

unfoldable pub int_field : IntType → Bytes → ℤ → Field
unfolding zero_minus_one
int_field t key v =
    if ltb_ℤ (zero_minus_one t) (pos 0)
    then record (zero_field key kind_int64) { num = to_u64 v }
    else record (zero_field key kind_uint64) { num = to_u64 v }

-- `Float`, on the bit pattern of the value.
unfoldable pub float_field : Bytes → ℕ → Field
float_field key bits = record (zero_field key kind_float64) { num = bits }

unfoldable pub bool_field : Bytes → Bool → Field
bool_field key v = record (zero_field key kind_bool) { num = if v then 1 else 0 }

unfoldable pub dur_field : Bytes → Duration → Field
dur_field key d = record (zero_field key kind_duration) { num = to_u64 d }

-- `uint64(t.UnixNano())`
unfoldable pub unix_nano : Time → ℕ
unix_nano t = to_u64 (t -ℤ unix_epoch)

unfoldable pub time_field : Bytes → Time → Field
unfolding unix_nano
time_field key t = record (zero_field key kind_time) { num = unix_nano t }

-- An `error`, nil or not, as a value of type `any`.
abbrev pub error_value : Option Bytes → AnyVal
error_value none = AnyVal.nil
error_value (some e) = AnyVal.error e

unfoldable pub err_field : Option Bytes → Field
err_field e = record (zero_field (bytes "error") kind_error) { any = error_value e }

unfoldable pub named_err : Bytes → Option Bytes → Field
named_err key e = record (zero_field key kind_error) { any = error_value e }

unfoldable pub any_field : Bytes → AnyVal → Field
any_field key v = record (zero_field key kind_any) { any = v }

-- `f.any.(error)`, nil if the value is no error
abbrev pub as_error : AnyVal → Option Bytes
as_error (AnyVal.error e) = some e
as_error _ = none

unfoldable pub err_val : Field → Option Bytes
err_val f = as_error f.any

-- `time.Unix(0, n)`
unfoldable pub unix_time : ℕ → Time
unix_time n = to_i64 n +ℤ unix_epoch

unfoldable pub value_of : Kind → Field → AnyVal
unfolding err_val unix_time
value_of kind_string f = AnyVal.string f.str
value_of kind_int64 f = AnyVal.int64 (to_i64 f.num)
value_of kind_uint64 f = AnyVal.uint64 f.num
value_of kind_float64 f = AnyVal.float64 f.num
value_of kind_bool f = AnyVal.bool (not (f.num == 0))
value_of kind_duration f = AnyVal.duration (to_i64 f.num)
value_of kind_time f = AnyVal.time (unix_time f.num)
value_of kind_error f = error_value (err_val f)
value_of kind_any f = f.any

-- `Field.Value`
unfoldable pub value : Field → AnyVal
unfolding value_of
value f = value_of f.knd f
