-- ===== src/Tests/Bridges.antt =====
-- Code under test, functions that panic, and records on their way to other libraries.
use logger.Base.{
  lookup, ◌+◌, ◌≡◌, refl, Bool, true, false, none, some, List, [], ◌∷◌, ◌++◌, Bytes, bytes,
  bytes_eq, pos, arith,
}
use logger.Level.{level_error, level_fatal, level_info}
use logger.Field.{AnyVal, Field, string_field, named_err}
use logger.Record.{Record, blank}
use logger.Metrics.{zero_metrics}
use logger.Logger.{Runtime, Logger, State, enabled, new}
use logger.Logger.Counts.{Call, message, event, seen}
use logger.Logger.Recover.{Ending, recover, go_body}
use logger.Logger.Recover.Contract.{counted, panics_counted}
use logger.Logtest.{Capture, capture_sink, test_logger}
use logger.Adapters.Logr.{info, error, flat, logr_new, with_values, with_name, info-with_values}
use logger.Adapters.Sentry.{
  SentryEvent, sentry_info, event_of, errors_of, last_plain, field_in, name_or, event_of_complete,
}

abbrev clock : Runtime Capture
clock = record { time_now = λ w. pos 1; callers = λ k w. k }

abbrev equal_texts : AnyVal → AnyVal → Bool
equal_texts (AnyVal.string a) (AnyVal.string b) = bytes_eq a b
equal_texts _ _ = false

abbrev user : Field
user = string_field (bytes "user") (bytes "ada")

abbrev calls : List Call
calls =
    message none level_info (bytes "signed in") (user ∷ [])
    ∷ message none (pos 0) (bytes "unseen") []
    ∷ event none level_error (bytes "lost") []
    ∷ []

abbrev nothing_yet : State Capture
nothing_yet = record { metrics = zero_metrics; world = record { entries = [] } }

-- A body that fails behind the calls above.
abbrev counting : Logger Capture
counting = test_logger capture_sink

abbrev failing : State Capture → Ending Capture
failing st = (st, some (AnyVal.string (bytes "index out of range")))

abbrev no_stack : Capture → Bytes
no_stack w = []

counting_has_metrics : counting.has_metrics ≡ true
unfolding test_logger new
counting_has_metrics = refl

panics_counted_example :
    let gone = go_body clock no_stack counting none failing nothing_yet in
    let passed = recover clock no_stack counting none (failing nothing_yet) in
    let before = (failing nothing_yet).0 in
    (gone.1 ≡ none)
    × (seen gone.0.metrics
        ≡ seen before.metrics
          + counted (failing nothing_yet).1 (enabled counting level_error before.world))
    × (passed.1 ≡ (failing nothing_yet).1)
    × (seen passed.0.metrics
        ≡ seen before.metrics
          + counted (failing nothing_yet).1 (enabled counting level_fatal before.world))
panics_counted_example =
    panics_counted clock no_stack counting none failing nothing_yet counting_has_metrics
      (omega arith)

abbrev values : List (AnyVal × AnyVal)
values = (AnyVal.string (bytes "pod"), AnyVal.string (bytes "a")) ∷ []

abbrev extra : List AnyVal
extra = AnyVal.string (bytes "n") ∷ AnyVal.int (pos 2) ∷ []

info-with_values_example :
    let bound = with_name (with_values (logr_new counting) (flat values)) (bytes "kubelet") in
    let plain = with_name (logr_new counting) (bytes "kubelet") in
    (info clock bound (pos 1) (bytes "hi") extra nothing_yet
      ≡ info clock plain (pos 1) (bytes "hi") (flat values ++ extra) nothing_yet)
    × (error clock bound (some (bytes "eof")) (bytes "hi") extra nothing_yet
        ≡ error clock plain (some (bytes "eof")) (bytes "hi") (flat values ++ extra) nothing_yet)
info-with_values_example =
    info-with_values clock (logr_new counting) values (bytes "kubelet") (pos 1) (some (bytes "eof"))
      (bytes "hi") extra nothing_yet

-- Its maps are empty, as `sentry.NewEvent` makes them.
abbrev new_sentry_event : SentryEvent
new_sentry_event = record {
  level = sentry_info;
  text = [];
  tags = some [];
  exceptions = [];
  contexts = some [];
}

abbrev failed_login : Record
failed_login = record blank {
  level = level_error;
  message = bytes "login failed";
  fields = user ∷ named_err (bytes "cause") (some (bytes "timeout")) ∷ [];
}

event_of_complete_example :
    let ev = event_of new_sentry_event failed_login in
    (ev.text ≡ name_or failed_login.event_name failed_login.message)
    × (ev.exceptions ≡ new_sentry_event.exceptions ++ errors_of failed_login.fields)
    × (field_in (bytes "user") ev ≡ last_plain (bytes "user") failed_login.fields none)
event_of_complete_example =
    event_of_complete new_sentry_event failed_login (bytes "user") (unfold lookup in refl)
