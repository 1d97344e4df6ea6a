-- ===== src/Logtest.antt =====
-- logtest/logtest.go: a sink that keeps what it is given in memory, a logger that writes there, and
-- the assertions of tests. The world is the Capture, an assertion says whether the test goes on.
pub mod Contract
use logger.Base.{
  Bool, true, false, not, ◌&&◌, ◌||◌, Option, none, some, List, [], ◌∷◌, ◌++◌, Bytes, bytes_eq,
  if◌then◌else◌, ◌==◌, Map, put, lookup, eq_ℤ, leb_ℤ,
}
use logger.Level.{Level, level_trace, level_error}
use logger.Field.{AnyVal, Field, value}
use logger.Record.{Record}
use logger.Sink.{Sink}
use logger.Logger.{Logger, new, with_level, with_sink}

pub record Entry : Type 0 where
  pub level : Level
  pub message : Bytes
  pub fields : Map AnyVal

pub record Capture : Type 0 where
  pub entries : List Entry

-- The loop of `Emit` over the fields of the record.
unfoldable pub put_fields : List Field → Map AnyVal → Map AnyVal
unfolding put value
put_fields [] m = m
put_fields (f ∷ fs) m = put_fields fs (put f.key (value f) m)

-- The entry that `Emit` makes.
unfoldable pub captured : Record → Entry
unfolding put_fields
captured r = record { level = r.level; message = r.message; fields = put_fields r.fields [] }

unfoldable pub capture_sink : Sink Capture
unfolding captured
capture_sink = record {
  emit = λ r c. (none, record c { entries = c.entries ++ (captured r ∷ []) });
  sync = λ c. (none, c);
  close = λ c. (none, c);
}

-- `New`, from an empty Capture on; `default` is the sink that `logger.New` has without an option.
unfoldable pub test_logger : Sink Capture → Logger Capture
unfolding new with_level with_sink capture_sink
test_logger default = new default (with_level level_trace ∷ with_sink capture_sink ∷ [])

-- `strings.Contains`
unfoldable pub starts_with : Bytes → Bytes → Bool
starts_with s [] = true
starts_with [] (c ∷ cs) = false
starts_with (d ∷ ds) (c ∷ cs) = (d == c) && starts_with ds cs

unfoldable pub contains : Bytes → Bytes → Bool
unfolding starts_with
contains [] sub = starts_with [] sub
contains (d ∷ ds) sub = starts_with (d ∷ ds) sub || contains ds sub

-- The loop of `AssertLogged`.
unfoldable pub assert_logged : Level → Bytes → List Entry → Bool
unfolding contains
assert_logged level sub [] = false
assert_logged level sub (e ∷ es) =
    let rest = assert_logged level sub es in
    if eq_ℤ e.level level && contains e.message sub then true else rest

abbrev pub found : (AnyVal → AnyVal → Bool) → AnyVal → Option AnyVal → Bool
found equal v none = false
found equal v (some x) = equal x v

-- The loop of `AssertField`; `equal` is Go's comparison of two values of an interface type.
unfoldable pub assert_field : (AnyVal → AnyVal → Bool) → Bytes → AnyVal → List Entry → Bool
unfolding lookup
assert_field equal key v [] = false
assert_field equal key v (e ∷ es) =
    let rest = assert_field equal key v es in
    if found equal v (lookup key e.fields) then true else rest

-- The loop of `AssertNoErrors`.
unfoldable pub assert_no_errors : List Entry → Bool
assert_no_errors [] = true
assert_no_errors (e ∷ es) =
    let rest = assert_no_errors es in if leb_ℤ level_error e.level then false else rest
