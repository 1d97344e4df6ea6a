-- ===== src/Adapters/Logrus.antt =====
-- contrib/logrus/logrus.go: the hook that sends logrus entries to a logger.
use logger.Base.{Option, some, List, [], ◌∷◌, Bytes, if◌then◌else◌, ℤ, eq_ℤ, Map}
use logger.Level.{Level, level_trace, level_debug, level_info, level_warn, level_error, level_fatal}
use logger.Field.{
  AnyVal, signed, Field, any_field, string_field, bool_field, int_field, float_field, named_err,
}
use logger.Record.{Context}
use logger.Logger.{Runtime, Logger, State, log}

-- The levels of logrus that have a case of their own.
pub record LogrusLevels : Type 0 where
  pub trace : ℤ
  pub debug : ℤ
  pub info : ℤ
  pub warn : ℤ
  pub error : ℤ

-- Here `mapLevel` compares for equality.
unfoldable pub map_level : LogrusLevels → ℤ → Level
map_level ls l =
    if eq_ℤ l ls.trace
    then level_trace
    else if eq_ℤ l ls.debug
    then level_debug
    else if eq_ℤ l ls.info
    then level_info
    else if eq_ℤ l ls.warn
    then level_warn
    else if eq_ℤ l ls.error
    then level_error
    else level_fatal

-- The type switch of `Fire`.
unfoldable pub fire_field : Bytes → AnyVal → Field
unfolding string_field bool_field int_field float_field named_err any_field
fire_field k (AnyVal.string x) = string_field k x
fire_field k (AnyVal.bool x) = bool_field k x
fire_field k (AnyVal.int x) = int_field (signed 64) k x
fire_field k (AnyVal.int64 x) = int_field (signed 64) k x
fire_field k (AnyVal.float64 x) = float_field k x
fire_field k (AnyVal.error x) = named_err k (some x)
fire_field k v = any_field k v

unfoldable pub fire_fields : Map AnyVal → List Field
unfolding fire_field
fire_fields [] = []
fire_fields ((k, v) ∷ m) = fire_field k v ∷ fire_fields m

-- `logrus.Entry`, its data in the order in which the loop visits it.
pub record LogrusEntry : Type 0 where
  pub level : ℤ
  pub text : Bytes
  pub values : Map AnyVal
  pub ctx : Option Context

-- `Fire`, whose error is nil; an entry without a context is logged with the nil context.
unfoldable pub fire :
    {W : Type 0} → Runtime W → LogrusLevels → Logger W → LogrusEntry → State W → State W
unfolding fire_fields map_level log
fire rt ls l e st = log rt l e.ctx (map_level ls e.level) e.text (fire_fields e.values) st
