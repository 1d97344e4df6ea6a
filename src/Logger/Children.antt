-- ===== src/Logger/Children.antt =====
-- A child logger of `With` against its parent, and the three emission paths against one another.
use logger.Base.{◌≡◌, refl, false, Option, none, some, List, [], ◌∷◌, ◌++◌, append_assoc, Bytes}
use logger.Level.{Level}
use logger.Field.{Field}
use logger.Record.{Context}
use logger.Metrics.{Metrics}
use logger.Processor.{Outcome, run_pipeline}
use logger.Logger.{
  prepared, or_background, Runtime, Logger, State, inherited, with_fields, finish, send, log,
  log_at, event_at,
}

inherited-append :
    (bound fs gs : List Field) → inherited (bound ++ fs) gs ≡ inherited bound (fs ++ gs)
inherited-append [] [] gs = refl
inherited-append [] (f ∷ fs) gs = refl
inherited-append (b ∷ bs) fs gs = append_assoc (b ∷ bs) fs gs

module _ {W : Type 0} where
  -- Logging through a child, a message or an event, is logging through its parent with the
  -- child's fields in front of the call's own, to the same counters.
  pub log-with_fields :
      (rt : Runtime W) (l : Logger W) (fs gs : List Field) (ctx : Option Context) (level : Level)
      (msg : Bytes) (st : State W)
      → (log rt (with_fields l fs) ctx level msg gs st ≡ log rt l ctx level msg (fs ++ gs) st)
        × (event_at rt (with_fields l fs) ctx level msg gs st
            ≡ event_at rt l ctx level msg (fs ++ gs) st)
  unfolding log event_at send with_fields
  log-with_fields rt l fs gs ctx level msg st =
      (rw (inherited-append l.bound fs gs) refl, rw (inherited-append l.bound fs gs) refl)

  finish-caller :
      (l : Logger W) (level : Level) (m : Metrics) (out : Outcome W)
      → finish (record l { add_caller = false }) level m out ≡ finish l level m out
  unfolding finish
  finish-caller l level m (none, r, w) = refl
  finish-caller l level m (some e, r, w) = refl

  -- The slog bridge's `logAt`, given the clock's time, does what `log` does for the same logger
  -- with caller capture turned off: whether a logger captures its caller makes no difference to
  -- the bridge.
  pub log_at-eq-log :
      (rt : Runtime W) (l : Logger W) (ctx : Option Context) (level : Level) (msg : Bytes)
      (fs : List Field) (st : State W)
      → log_at l ctx (rt.time_now st.world) level msg fs st
        ≡ log rt (record l { add_caller = false }) ctx level msg fs st
  unfolding log log_at send
  log_at-eq-log rt l ctx level msg fs st =
      let again = finish-caller l level st.metrics (
        run_pipeline l.processors (or_background ctx)
          (record (prepared l ctx (rt.time_now st.world) level fs) { message = msg }) st.world) in
      rw again refl
