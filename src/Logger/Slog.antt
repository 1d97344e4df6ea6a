-- ===== src/Logger/Slog.antt =====
-- handler.go: the handler that lets log/slog write through a logger. A slog value is given as its
-- `Resolve` leaves it, the members of a group too.
pub mod Contract
use logger.Base.{
  ℕ, Bool, Option, List, [], ◌∷◌, ◌++◌, Bytes, bytes, if◌then◌else◌, ℤ, pos, negsuc, ltb_ℤ,
}
use logger.Level.{Level, level_trace, level_debug, level_info, level_warn, level_error}
use logger.Field.{
  Time, Duration, Field, AnyVal, signed, unsigned, string_field, int_field, float_field, bool_field,
  dur_field, time_field, any_field,
}
use logger.Record.{Context}
use logger.Logger.{Logger, State, enabled, log_at}

-- `slog.Value` by its kinds, and a list of `slog.Attr`s, each a key and a value.
mutual
  pub data SlogValue : Type 0 where
    string : Bytes → SlogValue
    int64 : ℤ → SlogValue
    uint64 : ℕ → SlogValue
    float64 : ℕ → SlogValue
    bool : Bool → SlogValue
    duration : Duration → SlogValue
    time : Time → SlogValue
    group : Attrs → SlogValue
    any : AnyVal → SlogValue

  pub data Attrs : Type 0 where
    no_attrs : Attrs
    attr : Bytes → SlogValue → Attrs → Attrs

pub record SlogHandler (W : Type 0) : Type 0 where
  pub logger : Logger W
  pub groups : List Bytes
  pub prefix : Bytes
  pub preform : List Field

-- `l.Handler()`
unfoldable pub handler : {W : Type 0} → Logger W → SlogHandler W
handler l = record { logger = l; groups = []; prefix = []; preform = [] }

-- slog's own levels are -4 for Debug, 0 for Info, 4 for Warn and 8 for Error.
unfoldable pub slog_to_level : ℤ → Level
slog_to_level sl =
    if ltb_ℤ sl (negsuc 3)
    then level_trace
    else if ltb_ℤ sl (pos 0)
    then level_debug
    else if ltb_ℤ sl (pos 4)
    then level_info
    else if ltb_ℤ sl (pos 8)
    then level_warn
    else level_error

-- The prefix of a group's members: an attribute with no key is an inline group.
abbrev pub group_prefix : Bytes → Bytes → Bytes
group_prefix prefix [] = prefix
group_prefix prefix (c ∷ cs) = (prefix ++ (c ∷ cs)) ++ bytes "."

-- The zero `slog.Attr`, with no key and a nil value, is left out.
abbrev pub append_any_attr : List Field → Bytes → Bytes → AnyVal → List Field
append_any_attr dst prefix [] AnyVal.nil = dst
append_any_attr dst prefix key v = dst ++ (any_field (prefix ++ key) v ∷ [])

-- `appendAttr` of a key and a value, and its loops.
unfoldable mutual
  pub append_attr : List Field → Bytes → Bytes → SlogValue → List Field
  append_attr dst prefix key (string s) = dst ++ (string_field (prefix ++ key) s ∷ [])
  append_attr dst prefix key (int64 v) = dst ++ (int_field (signed 64) (prefix ++ key) v ∷ [])
  append_attr dst prefix key (uint64 v) =
      dst ++ (int_field (unsigned 64) (prefix ++ key) (pos v) ∷ [])
  append_attr dst prefix key (float64 v) = dst ++ (float_field (prefix ++ key) v ∷ [])
  append_attr dst prefix key (bool v) = dst ++ (bool_field (prefix ++ key) v ∷ [])
  append_attr dst prefix key (duration v) = dst ++ (dur_field (prefix ++ key) v ∷ [])
  append_attr dst prefix key (time v) = dst ++ (time_field (prefix ++ key) v ∷ [])
  append_attr dst prefix key (group xs) = append_attrs dst (group_prefix prefix key) xs
  append_attr dst prefix key (any v) = append_any_attr dst prefix key v

  pub append_attrs : List Field → Bytes → Attrs → List Field
  append_attrs dst prefix no_attrs = dst
  append_attrs dst prefix (attr key v rest) =
      append_attrs (append_attr dst prefix key v) prefix rest

-- A `slog.Record`, with its attributes.
pub record SlogRecord : Type 0 where
  pub time : Time
  pub level : ℤ
  pub message : Bytes
  pub attrs : Attrs

module _ {W : Type 0} where
  unfoldable pub slog_enabled : SlogHandler W → ℤ → W → Bool
  unfolding slog_to_level
  slog_enabled h sl w = enabled h.logger (slog_to_level sl) w

  -- `Handle`, which always returns nil.
  unfoldable pub handle : SlogHandler W → Option Context → SlogRecord → State W → State W
  unfolding slog_to_level append_attrs
  handle h ctx r st =
      log_at h.logger ctx r.time (slog_to_level r.level) r.message
        (append_attrs h.preform h.prefix r.attrs) st

  unfoldable pub with_attrs : SlogHandler W → Attrs → SlogHandler W
  unfolding append_attrs
  with_attrs h xs = record h { preform = append_attrs h.preform h.prefix xs }

  unfoldable pub with_group : SlogHandler W → Bytes → SlogHandler W
  with_group h [] = h
  with_group h (c ∷ cs) = record h {
    groups = h.groups ++ ((c ∷ cs) ∷ []);
    prefix = (h.prefix ++ (c ∷ cs)) ++ bytes ".";
  }
