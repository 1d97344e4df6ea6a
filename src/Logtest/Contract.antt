-- ===== src/Logtest/Contract.antt =====
-- What a test sees of the calls that the code under test made.
use logger.Base.{
  ◌||◌, Bool, true, false, ◌&&◌, Option, none, some, List, [], ◌∷◌, Bytes, bytes_eq, if◌then◌else◌,
  eq_ℤ, leb_ℤ, ltb_ℤ,
}
use logger.Level.{Level, level_trace, level_error}
use logger.Field.{AnyVal, Field, value}
use logger.Metrics.{Metrics}
use logger.Sink.{Sink}
use logger.Logger.Counts.{Call, message, bridged, event, level_of}
use logger.Logtest.{Entry, put_fields, contains, found}

-- The text and the fields of a call; an event has no message.
abbrev pub text_of : Call → Bytes
text_of (message ctx level msg fs) = msg
text_of (bridged ctx t level msg fs) = msg
text_of (event ctx level name fs) = []

abbrev pub fields_of : Call → List Field
fields_of (message ctx level msg fs) = fs
fields_of (bridged ctx t level msg fs) = fs
fields_of (event ctx level name fs) = fs

-- The value of the last field of a key.
unfoldable pub last_value : Bytes → List Field → Option AnyVal → Option AnyVal
unfolding bytes_eq value
last_value key [] v = v
last_value key (f ∷ fs) v = last_value key fs (if bytes_eq f.key key then some (value f) else v)

-- The calls that are not below TRACE.
unfoldable pub visible : List Call → List Call
visible [] = []
visible (c ∷ cs) =
    let rest = visible cs in if leb_ℤ level_trace (level_of c) then c ∷ rest else rest

abbrev pub entry_of : Call → Entry
entry_of c = record {
  level = level_of c;
  message = text_of c;
  fields = put_fields (fields_of c) [];
}

unfoldable pub entries_of : List Call → List Entry
entries_of [] = []
entries_of (c ∷ cs) = entry_of c ∷ entries_of cs

-- Whether some call is at just this level with the text in its message.
unfoldable pub some_call : Level → Bytes → List Call → Bool
some_call level sub [] = false
some_call level sub (c ∷ cs) =
    let rest = some_call level sub cs in
    (eq_ℤ (level_of c) level && contains (text_of c) sub) || rest

-- Whether every call is below ERROR.
unfoldable pub all_below_error : List Call → Bool
all_below_error [] = true
all_below_error (c ∷ cs) = let rest = all_below_error cs in ltb_ℤ (level_of c) level_error && rest

-- Whether the last field of this key, in some call, has an equal value.
unfoldable pub some_field : (AnyVal → AnyVal → Bool) → Bytes → AnyVal → List Call → Bool
unfolding last_value
some_field equal key v [] = false
some_field equal key v (c ∷ cs) =
    let rest = some_field equal key v cs in
    found equal v (last_value key (fields_of c) none) || rest
