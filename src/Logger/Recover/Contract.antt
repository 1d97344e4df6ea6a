-- ===== src/Logger/Recover/Contract.antt =====
-- What a job that may panic leaves behind.
use logger.Base.{
  ℕ, ◌+◌, ◌^◌, ◌<◌, ◌≡◌, refl, Bool, true, Option, none, some, [], ◌∷◌, Bytes, bytes, if◌then◌else◌,
  arith,
}
use logger.Level.{level_error, level_fatal}
use logger.Field.{AnyVal, any_field, string_field}
use logger.Record.{Context}
use logger.Logger.{Runtime, Logger, State, enabled}
use logger.Logger.Counts.{message, seen, perform, seen-perform}
use logger.Logger.Recover.{Ending, ctx_or, log_panic, recover, recover_and_continue, go_body}

-- One more, if there is a panic and such a record is not below the minimum level.
abbrev pub counted : Option AnyVal → Bool → ℕ
counted none on = 0
counted (some r) on = if on then 1 else 0

module _ {W : Type 0} (rt : Runtime W) (stack : W → Bytes) (l : Logger W)
    (ctx : Option Context) where
  go_ending :
      (e : Ending W)
      → l.has_metrics ≡ true
      → seen e.0.metrics + 1 < 2 ^ 64
      → let after = recover_and_continue rt stack l ctx e in
        (after.1 ≡ none)
        × (seen after.0.metrics ≡ seen e.0.metrics + counted e.1 (enabled l level_error e.0.world))
  unfolding recover_and_continue
  go_ending (st, none) on h = (refl, omega arith)
  go_ending (st, some r) on h =
      let fields =
        any_field (bytes "panic") r ∷ string_field (bytes "stack") (stack st.world) ∷ [] in
      (
        refl,
        unfold perform in
            seen-perform rt l (message (ctx_or ctx) level_error (bytes "recovered panic") fields) st
              on h,
      )

  recover_ending :
      (e : Ending W)
      → l.has_metrics ≡ true
      → seen e.0.metrics + 1 < 2 ^ 64
      → let after = recover rt stack l ctx e in
        (after.1 ≡ e.1)
        × (seen after.0.metrics ≡ seen e.0.metrics + counted e.1 (enabled l level_fatal e.0.world))
  unfolding recover log_panic
  recover_ending (st, none) on h = (refl, omega arith)
  recover_ending (st, some r) on h =
      let fields =
        any_field (bytes "panic") r ∷ string_field (bytes "stack") (stack st.world) ∷ [] in
      (
        refl,
        unfold perform in
            seen-perform rt l (message (ctx_or ctx) level_fatal (bytes "panic") fields) st on h,
      )

  -- Whatever a function does before it ends, with a panic or without: what `Go` runs never panics;
  -- behind a deferred Recover the panic goes on with the value that it had. On top of what the
  -- function logged itself, a panic is counted as one more record, emitted or dropped, by Go if
  -- ERROR and by Recover if FATAL is not below the minimum level at that time; no panic is counted
  -- as none. The logger has counters, and they are not about to wrap around.
  pub panics_counted :
      (fn : State W → Ending W) (st : State W)
      → l.has_metrics ≡ true
      → seen (fn st).0.metrics + 1 < 2 ^ 64
      → let gone = go_body rt stack l ctx fn st in
        let passed = recover rt stack l ctx (fn st) in
        let before = (fn st).0 in
        (gone.1 ≡ none)
        × (seen gone.0.metrics
            ≡ seen before.metrics + counted (fn st).1 (enabled l level_error before.world))
        × (passed.1 ≡ (fn st).1)
        × (seen passed.0.metrics
            ≡ seen before.metrics + counted (fn st).1 (enabled l level_fatal before.world))
  unfolding go_body
  panics_counted fn st on h =
      let a = go_ending (fn st) on h in let b = recover_ending (fn st) on h in (a.0, a.1, b.0, b.1)
