-- ===== src/Logger.antt =====
-- logger.go and handler.go's `logAt`: the emission path, its options and its leveled methods. What
-- a logger only points to is in the state: the counters that a child shares with its parent, and a
-- world `W` that the leveler, the processors and the transport read and change.
pub mod Children
pub mod Counts
pub mod Methods
pub mod Recover
pub mod StdLog
pub mod Presets
pub mod Lines
pub mod Slog
pub mod Template
pub mod Span
use logger.Base.{
  ℕ, ◌+◌, Bool, true, false, Option, none, some, List, [], ◌∷◌, ◌++◌, Bytes, if◌then◌else◌, leb_ℤ,
  ltb_ℤ,
}
use logger.Level.{Level, level_trace, level_debug, level_info, level_warn, level_error, level_fatal}
use logger.Field.{Time, Field}
use logger.Record.{Record, Context, background, new_record}
use logger.Processor.{ProcError, Processor, Outcome, run_pipeline}
use logger.Sink.{Error, Sink}
use logger.Transport.{Transport, sync_transport}
use logger.Metrics.{Metrics, zero_metrics, inc_emitted, inc_dropped}

-- The clock, and `runtime.Callers` from a frame of the stack on.
pub record Runtime (W : Type 0) : Type 0 where
  pub time_now : W → Time
  pub callers : ℕ → W → ℕ

-- `metrics` of the source points to the state's counters, and may be nil.
pub record Logger (W : Type 0) : Type 0 where
  pub leveler : W → Level
  pub processors : List (Processor W)
  pub transport : Transport W
  pub bound : List Field
  pub add_caller : Bool
  pub caller_skip : ℕ
  pub has_metrics : Bool

pub record State (W : Type 0) : Type 0 where
  pub metrics : Metrics
  pub world : W

pub record Config (W : Type 0) : Type 0 where
  pub leveler : W → Level
  pub processors : List (Processor W)
  pub transport : Option (Transport W)
  pub sink : Option (Sink W)
  pub add_caller : Bool
  pub caller_skip : ℕ

abbrev pub LogOption : Type 0 → Type 0
LogOption W = Config W → Config W

abbrev pub or_background : Option Context → Option Context
or_background none = some background
or_background (some ctx) = some ctx

-- `r.Fields` after the appends of `l.with` and of the call's fields.
abbrev pub inherited : List Field → List Field → List Field
inherited [] fields = fields
inherited (b ∷ bs) fields = (b ∷ bs) ++ fields

module _ {W : Type 0} where
  unfoldable pub with_level : Level → LogOption W
  with_level l c = record c { leveler = λ w. l }

  unfoldable pub with_leveler : (W → Level) → LogOption W
  with_leveler lv c = record c { leveler = lv }

  unfoldable pub with_processors : List (Processor W) → LogOption W
  with_processors ps c = record c { processors = ps }

  unfoldable pub with_sink : Sink W → LogOption W
  with_sink s c = record c { sink = some s }

  unfoldable pub with_transport : Transport W → LogOption W
  with_transport t c = record c { transport = some t }

  unfoldable pub with_caller : ℕ → LogOption W
  with_caller skip c = record c { add_caller = true; caller_skip = skip }

  unfoldable pub apply_options : List (LogOption W) → Config W → Config W
  apply_options [] c = c
  apply_options (o ∷ os) c = apply_options os (o c)

  abbrev sink_or : Sink W → Option (Sink W) → Sink W
  sink_or default none = default
  sink_or default (some s) = s

  -- The transport that `New` ends up with; `default` is its JSON sink on stderr.
  unfoldable pub transport_of : Sink W → Option (Sink W) → Option (Transport W) → Transport W
  unfolding sync_transport
  transport_of default sink (some t) = t
  transport_of default sink none = sync_transport (sink_or default sink)

  -- `New`; its counters start from `zero_metrics`.
  unfoldable pub new : Sink W → List (LogOption W) → Logger W
  unfolding apply_options transport_of
  new default opts =
      let start : Config W = record {
        leveler = λ w. level_info;
        processors = [];
        transport = none;
        sink = none;
        add_caller = false;
        caller_skip = 0;
      } in
      let c = apply_options opts start in
      record {
        leveler = c.leveler;
        processors = c.processors;
        transport = transport_of default c.sink c.transport;
        bound = [];
        add_caller = c.add_caller;
        caller_skip = c.caller_skip;
        has_metrics = true;
      }

  unfoldable pub enabled : Logger W → Level → W → Bool
  enabled l level w = leb_ℤ (l.leveler w) level

  -- `With`
  unfoldable pub with_fields : Logger W → List Field → Logger W
  with_fields l fields = record l { bound = l.bound ++ fields }

  -- Behind the pipeline: count a record that it refused, or count, dispatch and release the record.
  unfoldable pub finish : Logger W → Level → Metrics → Outcome W → State W
  unfolding inc_emitted inc_dropped
  finish l level m (some e, r, w) = record {
    metrics = if l.has_metrics then inc_dropped m else m;
    world = w;
  }
  finish l level m (none, r, w) = record {
    metrics = if l.has_metrics then inc_emitted m level else m;
    world = l.transport.dispatch r w;
  }

  -- What `log`, `logAt` and `eventAt` share: the test, the record, the pipeline and what follows.
  unfoldable pub send : Logger W → Option Context → Record → State W → State W
  unfolding finish run_pipeline
  send l ctx r st =
      if ltb_ℤ r.level (l.leveler st.world)
      then st
      else finish l r.level st.metrics (run_pipeline l.processors (or_background ctx) r st.world)

  -- The record of `log`, `logAt` and `eventAt`, before `log` sets its PC.
  abbrev pub prepared : Logger W → Option Context → Time → Level → List Field → Record
  prepared l ctx t level fields = record new_record {
    time = t;
    level = level;
    fields = inherited l.bound fields;
    ctx = or_background ctx;
  }

  unfoldable pub log :
      Runtime W → Logger W → Option Context → Level → Bytes → List Field → State W → State W
  unfolding send new_record
  log rt l ctx level msg fields st =
      let r = record (prepared l ctx (rt.time_now st.world) level fields) { message = msg } in
      send l ctx
        (if l.add_caller then record r { pc = rt.callers (3 + l.caller_skip) st.world } else r) st

  unfoldable pub log_at :
      Logger W → Option Context → Time → Level → Bytes → List Field → State W → State W
  unfolding send new_record
  log_at l ctx t level msg fields st =
      send l ctx (record (prepared l ctx t level fields) { message = msg }) st

  unfoldable pub event_at :
      Runtime W → Logger W → Option Context → Level → Bytes → List Field → State W → State W
  unfolding send new_record
  event_at rt l ctx level name fields st =
      send l ctx (record (prepared l ctx (rt.time_now st.world) level fields) { event_name = name })
        st
