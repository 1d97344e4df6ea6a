-- ===== src/Adapters/Order.antt =====
-- The levels of the other libraries against those of this one.
use logger.Base.{ℤ, ◌≤ℤ◌, arith, if◌then◌else◌, ltb_ℤ}
use logger.Level.{level_trace, level_debug, level_info, level_warn, level_error, level_fatal}
use logger.Adapters.Logr.{v_to_level}
use logger.Adapters.Zap.{ZapLevels, map_level}

-- One case of such a switch, under which the levels only grow.
case_monotone :
    (a b s t x y : ℤ)
    → a ≤ℤ b
    → t ≤ℤ y
    → x ≤ℤ y
    → (if ltb_ℤ a s then t else x) ≤ℤ (if ltb_ℤ b s then t else y)
case_monotone a b s t x y h k e = ground arith

-- A more severe level of zap never becomes a less severe one here.
pub map_level_monotone : (zs : ZapLevels) (a b : ℤ) → a ≤ℤ b → map_level zs a ≤ℤ map_level zs b
unfolding map_level
map_level_monotone zs a b h =
    let c5 =
      case_monotone a b zs.panic level_error level_fatal level_fatal h (omega arith)
        (omega arith) in
    let c4 = case_monotone a b zs.error level_warn _ _ h (ground arith) c5 in
    let c3 = case_monotone a b zs.warn level_info _ _ h (ground arith) c4 in
    let c2 = case_monotone a b zs.info level_debug _ _ h (ground arith) c3 in
    case_monotone a b zs.debug level_trace _ _ h (ground arith) c2

-- A greater verbosity of logr never becomes a more severe level here.
pub v_to_level_antitone : (a b : ℤ) → a ≤ℤ b → v_to_level b ≤ℤ v_to_level a
unfolding v_to_level
v_to_level_antitone a b h = ground arith
