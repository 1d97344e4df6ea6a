-- ===== src/Logger/Counts.antt =====
-- Every call is accounted for: below the minimum level it does nothing, and otherwise it counts as
-- emitted or as dropped.
use logger.Base.{
  ℕ, ◌+◌, ◌^◌, ◌<◌, ◌≡◌, refl, ◌∙◌, ap, true, false, Option, none, some, List, [], ◌∷◌, Bytes,
  if◌then◌else◌, arith, Bool-cases, inl, inr,
}
use logger.Level.{Level}
use logger.Field.{Time, Field}
use logger.Record.{Record, Context}
use logger.Processor.{Outcome, run_pipeline}
use logger.Metrics.{Metrics, inc_emitted, inc_dropped}
use logger.Logger.{
  Runtime, Logger, State, or_background, enabled, finish, send, log, log_at, event_at, prepared,
}

-- A call of a logger's method, by the path that it takes.
pub data Call : Type 0 where
  message : Option Context → Level → Bytes → List Field → Call
  bridged : Option Context → Time → Level → Bytes → List Field → Call
  event : Option Context → Level → Bytes → List Field → Call

abbrev pub level_of : Call → Level
level_of (message ctx level msg fs) = level
level_of (bridged ctx t level msg fs) = level
level_of (event ctx level name fs) = level

-- What counters of emitted and dropped records have seen together.
abbrev pub seen : Metrics → ℕ
seen m = m.emitted + m.dropped

seen-inc_emitted :
    (m : Metrics) (l : Level) → seen m + 1 < 2 ^ 64 → seen (inc_emitted m l) ≡ seen m + 1
unfolding inc_emitted
seen-inc_emitted m l h = ground arith

seen-inc_dropped : (m : Metrics) → seen m + 1 < 2 ^ 64 → seen (inc_dropped m) ≡ seen m + 1
unfolding inc_dropped
seen-inc_dropped m h = ground arith

module _ {W : Type 0} (rt : Runtime W) (l : Logger W) where
  unfoldable pub perform : Call → State W → State W
  perform (message ctx level msg fs) st = log rt l ctx level msg fs st
  perform (bridged ctx t level msg fs) st = log_at l ctx t level msg fs st
  perform (event ctx level name fs) st = event_at rt l ctx level name fs st

  unfoldable pub perform_all : List Call → State W → State W
  unfolding perform
  perform_all [] st = st
  perform_all (c ∷ cs) st = perform_all cs (perform c st)

  -- The calls that are at or above the minimum level when they are made.
  unfoldable pub enabled_calls : List Call → State W → ℕ
  unfolding perform
  enabled_calls [] st = 0
  enabled_calls (c ∷ cs) st =
      (if enabled l (level_of c) st.world then 1 else 0) + enabled_calls cs (perform c st)

  seen-finish :
      (level : Level) (m : Metrics) (out : Outcome W)
      → l.has_metrics ≡ true
      → seen m + 1 < 2 ^ 64
      → seen (finish l level m out).metrics ≡ seen m + 1
  unfolding finish
  seen-finish level m (none, r, w) h k = rw h (seen-inc_emitted m level k)
  seen-finish level m (some e, r, w) h k = rw h (seen-inc_dropped m k)

  seen-send :
      (ctx : Option Context) (r : Record) (st : State W)
      → l.has_metrics ≡ true
      → seen st.metrics + 1 < 2 ^ 64
      → seen (send l ctx r st).metrics
        ≡ seen st.metrics + (if enabled l r.level st.world then 1 else 0)
  unfolding send enabled
  seen-send ctx r st h k = ground (
    arith,
    seen-finish r.level st.metrics (run_pipeline l.processors (or_background ctx) r st.world) h k,
  )

  pub seen-perform :
      (c : Call) (st : State W)
      → l.has_metrics ≡ true
      → seen st.metrics + 1 < 2 ^ 64
      → seen (perform c st).metrics
        ≡ seen st.metrics + (if enabled l (level_of c) st.world then 1 else 0)
  unfolding perform log log_at event_at
  seen-perform (message ctx level msg fs) st h k =
      let r = record (prepared l ctx (rt.time_now st.world) level fs) { message = msg } in
      elim (Bool-cases l.add_caller) [
        | inl e ↦
            simp e
              (seen-send ctx (record r { pc = rt.callers (3 + l.caller_skip) st.world }) st h k)
        | inr e ↦ simp e (seen-send ctx r st h k)
      ]
  seen-perform (bridged ctx t level msg fs) st h k = seen-send ctx _ st h k
  seen-perform (event ctx level name fs) st h k = seen-send ctx _ st h k

  -- A call below the minimum level changes nothing at all: no counter, no processor, no sink.
  pub perform_disabled :
      (c : Call) (st : State W) → enabled l (level_of c) st.world ≡ false → perform c st ≡ st
  unfolding perform log log_at event_at send enabled
  perform_disabled (message ctx level msg fs) st h = ground arith
  perform_disabled (bridged ctx t level msg fs) st h = ground arith
  perform_disabled (event ctx level name fs) st h = ground arith

  enabled_calls_on :
      (c : Call) (cs : List Call) (st : State W)
      → enabled l (level_of c) st.world ≡ true
      → enabled_calls (c ∷ cs) st ≡ 1 + enabled_calls cs (perform c st)
  unfolding enabled_calls
  enabled_calls_on c cs st e = rw e refl

  enabled_calls_off :
      (c : Call) (cs : List Call) (st : State W)
      → enabled l (level_of c) st.world ≡ false
      → enabled_calls (c ∷ cs) st ≡ enabled_calls cs st
  unfolding enabled_calls
  enabled_calls_off c cs st e = rw (e, perform_disabled c st e) (omega arith)

  -- Of any calls in a row, those at or above the minimum level that holds when they are made are
  -- counted once each, as emitted or as dropped, and the others not at all, up to 2^64 calls.
  pub perform_all_counts :
      (cs : List Call) (st : State W)
      → l.has_metrics ≡ true
      → seen st.metrics + enabled_calls cs st < 2 ^ 64
      → seen (perform_all cs st).metrics ≡ seen st.metrics + enabled_calls cs st
  unfolding perform_all
  perform_all_counts [] st h k = unfold enabled_calls in omega arith
  perform_all_counts (c ∷ cs) st h k = elim (Bool-cases (enabled l (level_of c) st.world)) [
    | inl e ↦
        let more = enabled_calls_on c cs st e in
        let one : seen (perform c st).metrics ≡ seen st.metrics + 1 =
          seen-perform c st h (omega (arith, more)) ∙ rw e refl in
        omega (arith, one, more, perform_all_counts cs (perform c st))
    | inr e ↦
        let same : seen (perform_all cs (perform c st)).metrics ≡ seen (perform_all cs st).metrics =
          ap (λ s. seen (perform_all cs s).metrics) (perform_disabled c st e) in
        omega (arith, same, enabled_calls_off c cs st e, perform_all_counts cs st)
  ]
