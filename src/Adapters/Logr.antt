-- ===== src/Adapters/Logr.antt =====
-- contrib/logr/logr.go: the sink behind a logr.Logger, with its bound name and values.
use logger.Base.{
  ◌≡◌, refl, sym, ap, ◌∙◌, Bool, Option, none, List, [], ◌∷◌, ◌++◌, append_assoc, Bytes, bytes,
  if◌then◌else◌, ℤ, pos, leb_ℤ, eq_ℤ,
}
use logger.Level.{Level, level_trace, level_debug, level_info, level_error}
use logger.Field.{AnyVal, Field, any_field, string_field, named_err}
use logger.Logger.{Runtime, Logger, State, enabled, log}

pub record LogrSink (W : Type 0) : Type 0 where
  pub l : Logger W
  pub name : Bytes
  pub kv : List Field

-- `vToLevel`
unfoldable pub v_to_level : ℤ → Level
v_to_level v =
    if leb_ℤ v (pos 0) then level_info else if eq_ℤ v (pos 1) then level_debug else level_trace

-- `key, _ := kv[i].(string)`
abbrev pub as_string : AnyVal → Bytes
as_string (AnyVal.string s) = s
as_string _ = []

-- The loop of `kvToFields`; a key without a value ends it.
unfoldable pub pairs : List AnyVal → List Field
unfolding any_field
pairs [] = []
pairs (k ∷ []) = []
pairs (k ∷ v ∷ rest) = any_field (as_string k) v ∷ pairs rest

unfoldable pub kv_to_fields : List Field → List AnyVal → List Field
unfolding pairs
kv_to_fields base kv = base ++ pairs kv

-- The new name of `WithName`.
abbrev joined : Bytes → Bytes → Bytes
joined [] name = name
joined (c ∷ cs) name = (c ∷ cs) ++ (bytes "." ++ name)

-- The name, if the sink has one.
abbrev pub named : Bytes → List Field
named [] = []
named (c ∷ cs) = string_field (bytes "logger") (c ∷ cs) ∷ []

module _ {W : Type 0} where
  unfoldable pub logr_new : Logger W → LogrSink W
  logr_new l = record { l = l; name = []; kv = [] }

  unfoldable pub logr_enabled : LogrSink W → ℤ → W → Bool
  unfolding enabled v_to_level
  logr_enabled s level w = enabled s.l (v_to_level level) w

  unfoldable pub info : Runtime W → LogrSink W → ℤ → Bytes → List AnyVal → State W → State W
  unfolding kv_to_fields v_to_level log string_field
  info rt s level msg kv st =
      log rt s.l none (v_to_level level) msg (kv_to_fields s.kv kv ++ named s.name) st

  -- `Error`; the error may be nil.
  unfoldable pub error :
      Runtime W → LogrSink W → Option Bytes → Bytes → List AnyVal → State W → State W
  unfolding kv_to_fields log named_err string_field
  error rt s err msg kv st =
      log rt s.l none level_error msg
        ((kv_to_fields s.kv kv ++ (named_err (bytes "error") err ∷ [])) ++ named s.name) st

  unfoldable pub with_values : LogrSink W → List AnyVal → LogrSink W
  unfolding kv_to_fields
  with_values s kv = record s { kv = kv_to_fields s.kv kv }

  unfoldable pub with_name : LogrSink W → Bytes → LogrSink W
  with_name s name = record s { name = joined s.name name }

-- A list of keys and values, none of them left over.
unfoldable pub flat : List (AnyVal × AnyVal) → List AnyVal
flat [] = []
flat ((k, v) ∷ ps) = k ∷ v ∷ flat ps

pairs-append :
    (ps : List (AnyVal × AnyVal)) (kv : List AnyVal)
    → pairs (flat ps ++ kv) ≡ pairs (flat ps) ++ pairs kv
unfolding pairs flat
pairs-append [] kv = refl
pairs-append ((k, v) ∷ ps) kv = ap (λ rest. any_field (as_string k) v ∷ rest) (pairs-append ps kv)

module _ {W : Type 0} (rt : Runtime W) (s : LogrSink W) where
  values_first :
      (ps : List (AnyVal × AnyVal)) (kv : List AnyVal)
      → kv_to_fields (with_values s (flat ps)).kv kv ≡ kv_to_fields s.kv (flat ps ++ kv)
  unfolding kv_to_fields with_values
  values_first ps kv =
      append_assoc s.kv (pairs (flat ps)) (pairs kv)
      ∙ ap (λ rest. s.kv ++ rest) (sym (pairs-append ps kv))

  -- Keys and values that WithValues binds act like the same keys and values in front of those of
  -- the call, for Info and for Error alike, whatever name is bound in between, if no key among them
  -- lacks its value.
  pub info-with_values :
      (ps : List (AnyVal × AnyVal)) (name : Bytes) (level : ℤ) (err : Option Bytes) (msg : Bytes)
      (kv : List AnyVal) (st : State W)
      → let bound = with_name (with_values s (flat ps)) name in
        let plain = with_name s name in
        (info rt bound level msg kv st ≡ info rt plain level msg (flat ps ++ kv) st)
        × (error rt bound err msg kv st ≡ error rt plain err msg (flat ps ++ kv) st)
  unfolding info error with_name with_values
  info-with_values ps name level err msg kv st =
      let same = values_first ps kv in
      (
        ap (λ f. log rt s.l none (v_to_level level) msg (f ++ named (joined s.name name)) st) same,
        ap
            (λ f.
              log rt s.l none level_error msg
                ((f ++ (named_err (bytes "error") err ∷ [])) ++ named (joined s.name name)) st)
            same,
      )
