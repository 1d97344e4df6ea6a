-- ===== src/Adapters/Zap.antt =====
-- contrib/zap/zap.go: the core behind a zap.Logger.
use logger.Base.{
  Bool, Option, none, List, [], ◌∷◌, ◌++◌, Bytes, bytes, if◌then◌else◌, ℤ, ltb_ℤ, leb_ℤ, Map,
}
use logger.Level.{Level, level_trace, level_debug, level_info, level_warn, level_error, level_fatal}
use logger.Field.{
  AnyVal, signed, Field, any_field, string_field, bool_field, int_field, float_field,
}
use logger.Sink.{Error}
use logger.Logger.{Runtime, Logger, State, log}
use logger.Logger.Methods.{sync}

-- The levels of zapcore that the bridge compares with.
pub record ZapLevels : Type 0 where
  pub debug : ℤ
  pub info : ℤ
  pub warn : ℤ
  pub error : ℤ
  pub panic : ℤ

unfoldable pub map_level : ZapLevels → ℤ → Level
map_level zs z =
    if ltb_ℤ z zs.debug
    then level_trace
    else if ltb_ℤ z zs.info
    then level_debug
    else if ltb_ℤ z zs.warn
    then level_info
    else if ltb_ℤ z zs.error
    then level_warn
    else if ltb_ℤ z zs.panic
    then level_error
    else level_fatal

-- The type switch of `convert`.
unfoldable pub convert_one : Bytes → AnyVal → Field
unfolding string_field bool_field int_field float_field any_field
convert_one k (AnyVal.string x) = string_field k x
convert_one k (AnyVal.bool x) = bool_field k x
convert_one k (AnyVal.int64 x) = int_field (signed 64) k x
convert_one k (AnyVal.float64 x) = float_field k x
convert_one k v = any_field k v

unfoldable pub convert_each : Map AnyVal → List Field
unfolding convert_one
convert_each [] = []
convert_each ((k, v) ∷ m) = convert_one k v ∷ convert_each m

-- `zapcore.Entry`
pub record ZapEntry : Type 0 where
  pub level : ℤ
  pub logger_name : Bytes
  pub text : Bytes

-- `core`
pub record Core (W : Type 0) : Type 0 where
  pub l : Logger W
  pub lvl : ℤ
  pub bound : List Field

abbrev entry_name : Bytes → List Field
entry_name [] = []
entry_name (b ∷ bs) = string_field (bytes "logger") (b ∷ bs) ∷ []

-- The fields of zap are those of a type `F`. `encoded` is what zap's map encoder holds after the
-- fields were added, in the order in which the loop of `convert` visits it.
module _ {F : Type 0} (encoded : List F → Map AnyVal) where
  unfoldable pub convert : List F → List Field
  unfolding convert_each
  convert [] = []
  convert (f ∷ fs) = convert_each (encoded (f ∷ fs))

  module _ {W : Type 0} where
    unfoldable pub new_core : Logger W → ℤ → Core W
    new_core l enab = record { l = l; lvl = enab; bound = [] }

    unfoldable pub core_enabled : Core W → ℤ → Bool
    core_enabled c l = leb_ℤ c.lvl l

    -- `With`
    unfoldable pub core_with : Core W → List F → Core W
    unfolding convert
    core_with c fs = record c { bound = c.bound ++ convert fs }

    -- `Check`; `add_core` is the method of the `CheckedEntry`.
    unfoldable pub check : {C : Type 0} → (ZapEntry → Core W → C → C) → Core W → ZapEntry → C → C
    unfolding core_enabled
    check add_core c e ce = if core_enabled c e.level then add_core e c ce else ce

    -- `Write`, whose error is nil.
    unfoldable pub core_write :
        Runtime W → ZapLevels → Core W → ZapEntry → List F → State W → State W
    unfolding convert map_level log string_field
    core_write rt zs c e fs st =
        log rt c.l none (map_level zs e.level) e.text
          ((c.bound ++ convert fs) ++ entry_name e.logger_name) st

    unfoldable pub core_sync : Core W → State W → Option Error × State W
    core_sync c st = sync c.l st
