-- ===== src/Logger/Recover.antt =====
-- recover.go: deferred calls that log a panic. A body ends with the state that it leaves behind and
-- the value of its panic, if it panics; a deferred call gets both and returns both.
pub mod Contract
use logger.Base.{Option, none, some, [], ◌∷◌, Bytes, bytes}
use logger.Level.{level_error, level_fatal}
use logger.Field.{AnyVal, any_field, string_field}
use logger.Record.{Context, background}
use logger.Logger.{Runtime, Logger, State, log}
use logger.Logger.Methods.{sync}

-- A body, or a deferred call behind it.
abbrev pub Ending : Type 0 → Type 0
Ending W = State W × Option AnyVal

-- `ctxOr`
abbrev pub ctx_or : Option Context → Option Context
ctx_or none = some background
ctx_or (some ctx) = some ctx

-- `stack` is the text that `runtime.Stack` writes, cut at 8 KB.
module _ {W : Type 0} (rt : Runtime W) (stack : W → Bytes) (l : Logger W) where
  unfoldable pub log_panic : Option Context → AnyVal → State W → State W
  unfolding log any_field string_field
  log_panic ctx r st =
      let logged =
        log rt l (ctx_or ctx) level_fatal (bytes "panic")
          (any_field (bytes "panic") r ∷ string_field (bytes "stack") (stack st.world) ∷ []) st in
      (sync l logged).1

  -- `Recover`
  unfoldable pub recover : Option Context → Ending W → Ending W
  unfolding log_panic
  recover ctx (st, none) = (st, none)
  recover ctx (st, some r) = (log_panic ctx r st, some r)

  unfoldable pub recover_and_continue : Option Context → Ending W → Ending W
  unfolding log any_field string_field
  recover_and_continue ctx (st, none) = (st, none)
  recover_and_continue ctx (st, some r) = (
    log rt l (ctx_or ctx) level_error (bytes "recovered panic")
        (any_field (bytes "panic") r ∷ string_field (bytes "stack") (stack st.world) ∷ []) st,
    none,
  )

  -- What the goroutine of `Go` runs.
  unfoldable pub go_body : Option Context → (State W → Ending W) → State W → Ending W
  unfolding recover_and_continue
  go_body ctx fn st = recover_and_continue ctx (fn st)
