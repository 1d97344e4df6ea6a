-- ===== src/Logger/Methods.antt =====
-- logger.go and template.go: the leveled methods, each of which is a call of `log`, of `eventAt` or
-- of `logt`; and `Sync` and `Close`.
use logger.Base.{Option, some, List, Bytes}
use logger.Level.{Level, level_trace, level_debug, level_info, level_warn, level_error}
use logger.Field.{AnyVal, Field}
use logger.Record.{Context, background}
use logger.Sink.{Error}
use logger.Logger.{Runtime, Logger, State, log, event_at}
use logger.Logger.Template.{logt}

module _ {W : Type 0} (rt : Runtime W) (l : Logger W) where
  abbrev pub trace_context : Option Context → Bytes → List Field → State W → State W
  trace_context ctx msg f st = log rt l ctx level_trace msg f st

  abbrev pub debug_context : Option Context → Bytes → List Field → State W → State W
  debug_context ctx msg f st = log rt l ctx level_debug msg f st

  abbrev pub info_context : Option Context → Bytes → List Field → State W → State W
  info_context ctx msg f st = log rt l ctx level_info msg f st

  abbrev pub warn_context : Option Context → Bytes → List Field → State W → State W
  warn_context ctx msg f st = log rt l ctx level_warn msg f st

  abbrev pub error_context : Option Context → Bytes → List Field → State W → State W
  error_context ctx msg f st = log rt l ctx level_error msg f st

  -- `Trace` to `Error`, with the background context.
  abbrev pub trace : Bytes → List Field → State W → State W
  trace msg f st = log rt l (some background) level_trace msg f st

  abbrev pub debug : Bytes → List Field → State W → State W
  debug msg f st = log rt l (some background) level_debug msg f st

  abbrev pub info : Bytes → List Field → State W → State W
  info msg f st = log rt l (some background) level_info msg f st

  abbrev pub warn : Bytes → List Field → State W → State W
  warn msg f st = log rt l (some background) level_warn msg f st

  abbrev pub error : Bytes → List Field → State W → State W
  error msg f st = log rt l (some background) level_error msg f st

  -- `Log`
  abbrev pub log_level : Option Context → Level → Bytes → List Field → State W → State W
  log_level ctx level msg f st = log rt l ctx level msg f st

  -- `Event`
  abbrev pub event : Bytes → List Field → State W → State W
  event name f st = event_at rt l (some background) level_info name f st

-- `Debugt` to `Errort`.
module _ {W : Type 0} (sprint : AnyVal → Bytes) (rt : Runtime W) (l : Logger W) where
  abbrev pub debugt : Bytes → List AnyVal → State W → State W
  debugt tmpl args st = logt sprint rt l (some background) level_debug tmpl args st

  abbrev pub infot : Bytes → List AnyVal → State W → State W
  infot tmpl args st = logt sprint rt l (some background) level_info tmpl args st

  abbrev pub warnt : Bytes → List AnyVal → State W → State W
  warnt tmpl args st = logt sprint rt l (some background) level_warn tmpl args st

  abbrev pub errort : Bytes → List AnyVal → State W → State W
  errort tmpl args st = logt sprint rt l (some background) level_error tmpl args st

module _ {W : Type 0} (l : Logger W) where
  -- `Sync` and `Close`
  abbrev pub sync : State W → Option Error × State W
  sync st = let (e, w) = l.transport.sync st.world in (e, record st { world = w })

  abbrev pub close : State W → Option Error × State W
  close st = let (e, w) = l.transport.close st.world in (e, record st { world = w })
