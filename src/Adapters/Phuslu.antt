-- ===== src/Adapters/Phuslu.antt =====
-- contrib/phuslu/phuslu.go: a sink that hands a record on to a phuslu/log Logger.
use logger.Base.{none, List, [], ◌∷◌, Bytes, bytes, if◌then◌else◌, ltb_ℤ}
use logger.Level.{Level, level_debug, level_info, level_warn, level_error, level_fatal}
use logger.Field.{AnyVal, Field, value}
use logger.Record.{Record}
use logger.Sink.{Sink}

-- The methods of a phuslu/log Logger that begin an entry, and those of an entry.
pub record Phuslu (E W : Type 0) : Type 0 where
  pub trace : W → E
  pub debug : W → E
  pub info : W → E
  pub warn : W → E
  pub error : W → E
  pub fatal : W → E
  pub add_any : Bytes → AnyVal → E → E
  pub str : Bytes → Bytes → E → E
  pub msg : Bytes → E → W → W

module _ {E W : Type 0} (p : Phuslu E W) where
  unfoldable pub entry_for : Level → W → E
  entry_for l =
      if ltb_ℤ l level_debug
      then p.trace
      else if ltb_ℤ l level_info
      then p.debug
      else if ltb_ℤ l level_warn
      then p.info
      else if ltb_ℤ l level_error
      then p.warn
      else if ltb_ℤ l level_fatal
      then p.error
      else p.fatal

  unfoldable pub add_each : List Field → E → E
  unfolding value
  add_each [] e = e
  add_each (f ∷ fs) e = add_each fs (p.add_any f.key (value f) e)

  abbrev add_name : Bytes → E → E
  add_name [] e = e
  add_name (c ∷ cs) e = p.str (bytes "event") (c ∷ cs) e

  unfoldable pub phuslu_emit : Record → W → W
  unfolding add_each entry_for
  phuslu_emit r w =
      p.msg r.message (add_name r.event_name (add_each r.fields (entry_for r.level w))) w

  unfoldable pub phuslu_sink : Level → Sink W
  unfolding phuslu_emit
  phuslu_sink min_lvl = record {
    emit = λ r w. (none, if ltb_ℤ r.level min_lvl then w else phuslu_emit r w);
    sync = λ w. (none, w);
    close = λ w. (none, w);
  }
