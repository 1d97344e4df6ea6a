-- ===== src/Adapters/Sentry.antt =====
-- contrib/sentry/sentry.go: a sink that captures a record as an event of Sentry.
use logger.Base.{
  ◌≡◌, refl, sym, append-nil, ap, ◌∙◌, Option, none, some, List, [], ◌∷◌, ◌++◌, append_assoc, Bytes,
  bytes, bytes_eq, bytes_eq_iff, true, if◌then◌else◌, ltb_ℤ, Map, put, lookup, lookup-put,
}
use logger.Level.{Level, level_warn, level_error, level_fatal}
use logger.Field.{AnyVal, Field, value, as_error}
use logger.Record.{Record}
use logger.Sink.{Sink}

pub data SentryLevel : Type 0 where
  sentry_info sentry_warning sentry_error sentry_fatal : SentryLevel

-- What the sink sets of a `sentry.Event`; an exception is its type and its value, a nil map `none`.
pub record SentryEvent : Type 0 where
  pub level : SentryLevel
  pub text : Bytes
  pub tags : Option (Map Bytes)
  pub exceptions : List (Bytes × Bytes)
  pub contexts : Option (Map (Map AnyVal))

unfoldable pub sentry_level : Level → SentryLevel
sentry_level l =
    if ltb_ℤ l level_warn
    then sentry_info
    else if ltb_ℤ l level_error
    then sentry_warning
    else if ltb_ℤ l level_fatal
    then sentry_error
    else sentry_fatal

abbrev pub or_empty : {A : Type 0} → Option (Map A) → Map A
or_empty none = []
or_empty (some m) = m

-- The message and the tags, by the event name.
unfoldable pub name_event : Bytes → SentryEvent → SentryEvent
unfolding put
name_event [] ev = record ev { tags = some (or_empty ev.tags) }
name_event (c ∷ cs) ev = record ev {
  text = c ∷ cs;
  tags = some (put (bytes "event") (c ∷ cs) (or_empty ev.tags));
}

-- One round of the loop over the fields, by whether the value is an error that is not nil.
abbrev pub sort_field :
    Field → Option Bytes → List (Bytes × Bytes) × Map AnyVal → List (Bytes × Bytes) × Map AnyVal
sort_field f (some err) (es, m) = (es ++ ((f.key, err) ∷ []), m)
sort_field f none (es, m) = (es, put f.key (value f) m)

unfoldable pub sort_fields :
    List Field → List (Bytes × Bytes) × Map AnyVal → List (Bytes × Bytes) × Map AnyVal
unfolding put value
sort_fields [] out = out
sort_fields (f ∷ fs) out = sort_fields fs (sort_field f (as_error (value f)) out)

abbrev with_context : Map AnyVal → SentryEvent → SentryEvent
with_context [] ev = ev
with_context (kv ∷ m) ev = record ev {
  contexts = some (put (bytes "fields") (kv ∷ m) (or_empty ev.contexts));
}

-- The event that `Emit` captures, from what `sentry.NewEvent` returns.
unfoldable pub event_of : SentryEvent → Record → SentryEvent
unfolding sentry_level name_event sort_fields put
event_of start r =
    let ev =
      name_event r.event_name (record start { level = sentry_level r.level; text = r.message }) in
    let (es, m) = sort_fields r.fields (ev.exceptions, []) in
    with_context m (record ev { exceptions = es })

-- The methods of a `sentry.Hub`.
pub record Hub (W : Type 0) : Type 0 where
  pub new_event : SentryEvent
  pub capture_event : SentryEvent → W → W
  pub flush : W → W

unfoldable pub sentry_sink : {W : Type 0} → Hub W → Level → Sink W
unfolding event_of
sentry_sink hub min_lvl = record {
  emit = λ r w.
      (none, if ltb_ℤ r.level min_lvl then w else hub.capture_event (event_of hub.new_event r) w);
  sync = λ w. (none, hub.flush w);
  close = λ w. (none, hub.flush w);
}

-- `New`, with the current hub.
unfoldable pub new_sentry_sink : {W : Type 0} → Hub W → Level → Sink W
unfolding sentry_sink
new_sentry_sink hub min_lvl =
    sentry_sink hub (if ltb_ℤ min_lvl level_warn then level_warn else min_lvl)

-- The fields whose values are errors, and the last value under a key among the others.
abbrev with_error : Bytes → Option Bytes → List (Bytes × Bytes) → List (Bytes × Bytes)
with_error key (some e) rest = (key, e) ∷ rest
with_error key none rest = rest

unfoldable pub errors_of : List Field → List (Bytes × Bytes)
unfolding value
errors_of [] = []
errors_of (f ∷ fs) = let rest = errors_of fs in with_error f.key (as_error (value f)) rest

abbrev unless_error : Option Bytes → Option AnyVal → Option AnyVal → Option AnyVal
unless_error (some e) v x = v
unless_error none v x = x

unfoldable pub last_plain : Bytes → List Field → Option AnyVal → Option AnyVal
unfolding value bytes_eq
last_plain key [] v = v
last_plain key (f ∷ fs) v =
    last_plain key fs
      (unless_error (as_error (value f)) v (if bytes_eq f.key key then some (value f) else v))

module _ (key : Bytes) where
  -- What the loop over the fields makes, from any point on.
  abbrev Sorted : List Field → Type 0
  Sorted fs =
      (es : List (Bytes × Bytes)) (m : Map AnyVal)
      → ((sort_fields fs (es, m)).0 ≡ es ++ errors_of fs)
        × (lookup key (sort_fields fs (es, m)).1 ≡ last_plain key fs (lookup key m))

  sort_one :
      (f : Field) (fs : List Field) (e : Option Bytes) (es : List (Bytes × Bytes)) (m : Map AnyVal)
      → Sorted fs
      → let out = sort_fields fs (sort_field f e (es, m)) in
        let before = lookup key m in
        (out.0 ≡ es ++ with_error f.key e (errors_of fs))
        × (lookup key out.1
            ≡ last_plain key fs
                (unless_error e before (if bytes_eq f.key key then some (value f) else before)))
  sort_one f fs (some err) es m rest =
      let (named, looked) = rest (es ++ ((f.key, err) ∷ [])) m in
      (named ∙ append_assoc es ((f.key, err) ∷ []) (errors_of fs), looked)
  sort_one f fs none es m rest =
      let (named, looked) = rest es (put f.key (value f) m) in
      (named, looked ∙ ap (last_plain key fs) (lookup-put key f.key (value f) m))

  sort_fields-Sorted : (fs : List Field) → Sorted fs
  unfolding sort_fields errors_of last_plain
  sort_fields-Sorted [] es m = (sym (append-nil es), refl)
  sort_fields-Sorted (f ∷ fs) es m = sort_one f fs (as_error (value f)) es m (sort_fields-Sorted fs)

-- The value of a key in an event's context of fields.
unfoldable pub field_in : Bytes → SentryEvent → Option AnyVal
unfolding lookup
field_in key ev = lookup key (or_empty (lookup (bytes "fields") (or_empty ev.contexts)))

abbrev pub name_or : Bytes → Bytes → Bytes
name_or [] message = message
name_or (c ∷ cs) message = c ∷ cs

named_event :
    (name : Bytes) (ev : SentryEvent)
    → ((name_event name ev).text ≡ name_or name ev.text)
      × ((name_event name ev).exceptions ≡ ev.exceptions)
      × ((name_event name ev).contexts ≡ ev.contexts)
unfolding name_event
named_event [] ev = (refl, refl, refl)
named_event (c ∷ cs) ev = (refl, refl, refl)

in_context :
    (key : Bytes) (m : Map AnyVal) (ev : SentryEvent)
    → lookup (bytes "fields") (or_empty ev.contexts) ≡ none
    → ((with_context m ev).text ≡ ev.text)
      × ((with_context m ev).exceptions ≡ ev.exceptions)
      × (field_in key (with_context m ev) ≡ lookup key m)
unfolding field_in
in_context key [] ev e = (refl, refl, rw e (unfold lookup in refl))
in_context key (kv ∷ m) ev e =
    let found = lookup-put (bytes "fields") (bytes "fields") (kv ∷ m) (or_empty ev.contexts) in
    let same : bytes_eq (bytes "fields") (bytes "fields") ≡ true =
      (bytes_eq_iff (bytes "fields") (bytes "fields")).1 refl in
    let there : lookup (bytes "fields") (put (bytes "fields") (kv ∷ m) (or_empty ev.contexts))
        ≡ some (kv ∷ m) =
      found
      ∙ ap (λ b. if b then some (kv ∷ m) else lookup (bytes "fields") (or_empty ev.contexts))
          same in
    (refl, refl, ap (λ c. lookup key (or_empty c)) there)

-- Nothing of a record's fields is lost on the way to Sentry but the earlier values of a key that is
-- given twice: in the event that is captured, the fields whose values are errors follow the
-- exceptions of the new event in order, each with its key and its text, and any key is in the
-- context of fields with the last value that it has among the other fields, if it has one. The text
-- is the event's name or, for a record without one, its message. The new event has no context of
-- fields yet; whether its map of contexts is nil or empty or has others makes no difference.
pub event_of_complete :
    (start : SentryEvent) (r : Record) (key : Bytes)
    → lookup (bytes "fields") (or_empty start.contexts) ≡ none
    → let ev = event_of start r in
      (ev.text ≡ name_or r.event_name r.message)
      × (ev.exceptions ≡ start.exceptions ++ errors_of r.fields)
      × (field_in key ev ≡ last_plain key r.fields none)
unfolding event_of
event_of_complete start r key none_yet =
    let first = record start { level = sentry_level r.level; text = r.message } in
    let ev = name_event r.event_name first in
    let named = named_event r.event_name first in
    let sorted = sort_fields-Sorted key r.fields ev.exceptions [] in
    let (es, m) = sort_fields r.fields (ev.exceptions, []) in
    let rest =
      in_context key m (record ev { exceptions = es })
        (ap (λ c. lookup (bytes "fields") (or_empty c)) named.2 ∙ none_yet) in
    (
      rest.0 ∙ named.0,
      rest.1 ∙ sorted.0 ∙ ap (λ x. x ++ errors_of r.fields) named.1,
      rest.2 ∙ sorted.1 ∙ unfold lookup in refl,
    )
