-- ===== src/Field/Values.antt =====
-- What a constructor of field.go stores is what `Value` gives back.
use logger.Base.{
  ℕ, ◌^◌, ◌<◌, ◌≡◌, ap, ◌∙◌, Bool, Option, Bytes, arith, ℤ, pos, negsuc, pos_part, ◌≤ℤ◌, ◌<ℤ◌, ◌+ℤ◌,
  ◌-ℤ◌, to_u64, InInt64, to_i64-to_u64,
}
use logger.Field.{
  Time, Duration, AnyVal, IntType, signed, unsigned, int_field, bool_field, dur_field, time_field,
  unix_epoch, err_field, named_err, error_value, value,
}

-- The integers that a signed or an unsigned type of at most 64 bits can hold.
abbrev pub InType : IntType → ℤ → Type 0
InType (signed w) v = InInt64 v
InType (unsigned w) v = (pos 0 ≤ℤ v) × (v <ℤ pos (2 ^ 64))

-- What `Value` is to return for an integer: an int64 for a signed type, else a uint64.
abbrev pub boxed : IntType → ℤ → AnyVal
boxed (signed w) v = AnyVal.int64 v
boxed (unsigned w) v = AnyVal.uint64 (pos_part v)

to_u64_small : (n : ℕ) → n < 2 ^ 64 → to_u64 (pos n) ≡ n
unfolding to_u64
to_u64_small n h = omega arith

-- `Value` gives back an integer that `Int` has stored as a 64-bit word, if its type of at most 64
-- bits can hold it: as the int64 of a signed type, as the uint64 of an unsigned one.
pub value-int_field :
    (t : IntType) (key : Bytes) (v : ℤ) → InType t v → value (int_field t key v) ≡ boxed t v
unfolding value int_field
value-int_field (signed w) key v h = ap AnyVal.int64 (to_i64-to_u64 v h)
value-int_field (unsigned w) key (pos n) h = ground (arith, to_u64_small n)
value-int_field (unsigned w) key (negsuc n) h = absurd (omega arith)

-- `Value` gives back a duration, and an instant whose distance from the Unix epoch is an int64 of
-- nanoseconds (the years 1678 to 2262).
pub value-time_field :
    (key : Bytes) (t : Time) (d : Duration)
    → InInt64 (t -ℤ unix_epoch)
    → InInt64 d
    → (value (time_field key t) ≡ AnyVal.time t) × (value (dur_field key d) ≡ AnyVal.duration d)
unfolding value time_field dur_field
value-time_field key t d ht hd = (
  ap (λ z. AnyVal.time (z +ℤ unix_epoch)) (to_i64-to_u64 (t -ℤ unix_epoch) ht)
      ∙ ap AnyVal.time (ground arith),
  ap AnyVal.duration (to_i64-to_u64 d hd),
)

-- A boolean and an error, nil or not, come back out of `Value`, the error under either constructor.
pub value-bool_field :
    (key : Bytes) (b : Bool) (e : Option Bytes)
    → (value (bool_field key b) ≡ AnyVal.bool b)
      × (value (err_field e) ≡ error_value e)
      × (value (named_err key e) ≡ error_value e)
unfolding value bool_field err_field named_err
value-bool_field key b e = (ground arith, ground arith, ground arith)
