-- ===== src/Adapters/Zerolog.antt =====
-- contrib/zerolog/zerolog.go: a sink that hands a record on to a zerolog.Logger.
use logger.Base.{none, List, [], ◌∷◌, Bytes, bytes, if◌then◌else◌, ltb_ℤ}
use logger.Level.{Level, level_debug, level_info, level_warn, level_error, level_fatal}
use logger.Field.{AnyVal, Field, value}
use logger.Record.{Record}
use logger.Sink.{Sink}

-- The levels of zerolog, of a type `L`.
pub record ZerologLevels (L : Type 0) : Type 0 where
  pub trace : L
  pub debug : L
  pub info : L
  pub warn : L
  pub error : L
  pub fatal : L

unfoldable pub map_level : {L : Type 0} → ZerologLevels L → Level → L
map_level zs l =
    if ltb_ℤ l level_debug
    then zs.trace
    else if ltb_ℤ l level_info
    then zs.debug
    else if ltb_ℤ l level_warn
    then zs.info
    else if ltb_ℤ l level_error
    then zs.warn
    else if ltb_ℤ l level_fatal
    then zs.error
    else zs.fatal

-- The methods of a zerolog.Logger and of its events that the sink calls.
pub record Zerolog (L E W : Type 0) : Type 0 where
  pub levels : ZerologLevels L
  pub with_level : L → W → E
  pub interface : Bytes → AnyVal → E → E
  pub str : Bytes → Bytes → E → E
  pub msg : Bytes → E → W → W

module _ {L E W : Type 0} (z : Zerolog L E W) where
  unfoldable pub add_fields : List Field → E → E
  unfolding value
  add_fields [] ev = ev
  add_fields (f ∷ fs) ev = add_fields fs (z.interface f.key (value f) ev)

  abbrev add_event : Bytes → E → E
  add_event [] ev = ev
  add_event (c ∷ cs) ev = z.str (bytes "event") (c ∷ cs) ev

  unfoldable pub zerolog_emit : Record → W → W
  unfolding add_fields map_level
  zerolog_emit r w =
      z.msg r.message
        (add_event r.event_name (add_fields r.fields (z.with_level (map_level z.levels r.level) w)))
        w

  unfoldable pub zerolog_sink : Level → Sink W
  unfolding zerolog_emit
  zerolog_sink min_lvl = record {
    emit = λ r w. (none, if ltb_ℤ r.level min_lvl then w else zerolog_emit r w);
    sync = λ w. (none, w);
    close = λ w. (none, w);
  }
