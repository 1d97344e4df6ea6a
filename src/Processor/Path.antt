-- ===== src/Processor/Path.antt =====
-- redact_path.go: redaction by dotted path patterns.
pub mod Match
pub mod Stage
use logger.Base.{
  ℕ, zero, suc, ◌+◌, Bool, true, false, not, ◌&&◌, ◌||◌, Option, none, some, List, [], ◌∷◌, ◌++◌,
  map, if◌then◌else◌, ◌==◌, Bytes, bytes, bytes_eq, length, get_elem?, set, take,
}
use logger.Field.{Kind, kind_string, Field, AnyVal, string_field, value}
use logger.Record.{Record}

pub data Strategy : Type 0 where
  mask hash drop : Strategy

pub record PathRedactor : Type 0 where
  pub patterns : List (List Bytes)
  pub strategy : Strategy
  pub censor : Bytes

-- `strings.Split(s, ".")`: the first segment grows until a dot closes it.
abbrev pub cons_segment : ℕ → List Bytes → List Bytes
cons_segment c [] = (c ∷ []) ∷ []
cons_segment c (seg ∷ segs) = (c ∷ seg) ∷ segs

unfoldable pub split : Bytes → List Bytes
split [] = [] ∷ []
split (c ∷ cs) = let segs = split cs in if c == b'.' then [] ∷ segs else cons_segment c segs

abbrev pub default_censor : Bytes → Bytes
default_censor [] = bytes "[REDACTED]"
default_censor (c ∷ cs) = c ∷ cs

unfoldable pub new_path_redactor : Strategy → Bytes → List Bytes → PathRedactor
unfolding split
new_path_redactor strategy censor patterns = record {
  patterns = map split patterns;
  strategy = strategy;
  censor = default_censor censor;
}

-- `segMatch`, whose loop walks both lists by one index.
unfoldable pub seg_match : List Bytes → List Bytes → Bool
unfolding bytes_eq
seg_match [] [] = true
seg_match [] (k ∷ ks) = false
seg_match (p ∷ ps) [] = bytes_eq p (bytes "**")
seg_match (p ∷ ps) (k ∷ ks) =
    let rest = seg_match ps ks in
    if bytes_eq p (bytes "**")
    then true
    else if bytes_eq p (bytes "*") || bytes_eq p k
    then rest
    else false

unfoldable pub any_match : List (List Bytes) → List Bytes → Bool
unfolding seg_match
any_match [] ks = false
any_match (p ∷ ps) ks = if seg_match p ks then true else any_match ps ks

-- `pr.matches`
unfoldable pub matches : PathRedactor → Bytes → Bool
unfolding any_match split
matches pr key = any_match pr.patterns (split key)

-- The text that is hashed, and `"sha256:" + hex(sum[:8])`. `sum8` stands for the hexadecimal text
-- of the first 8 bytes of crypto/sha256, `sprint` for fmt.Sprint.
module _ (sum8 : Bytes → Bytes) (sprint : AnyVal → Bytes) where
  abbrev hashed_text : Kind → Field → Bytes
  hashed_text kind_string f = f.str
  hashed_text _ f = sprint (value f)

  unfoldable pub hash_value : Field → Bytes
  hash_value f = bytes "sha256:" ++ sum8 (hashed_text f.knd f)

  -- What the `switch` appends for a matching field.
  unfoldable pub replacement : PathRedactor → Strategy → Field → List Field
  unfolding hash_value string_field
  replacement pr drop f = []
  replacement pr hash f = string_field f.key (hash_value f) ∷ []
  replacement pr mask f = string_field f.key pr.censor ∷ []

  -- What one round of the loop appends to `dst`.
  unfoldable pub appended : PathRedactor → Field → List Field
  unfolding replacement matches
  appended pr f = if matches pr f.key then replacement pr pr.strategy f else f ∷ []

  -- `dst` is the first `w` fields of the array that the loop still reads from: `append` overwrites
  -- the field at `w`.
  append_in_place : List Field → ℕ → List Field → List Field × ℕ
  append_in_place arr w [] = (arr, w)
  append_in_place arr w (f ∷ fs) = append_in_place (set arr w f) (w + 1) fs

  round : PathRedactor → List Field → ℕ → Option Field → List Field × ℕ
  round pr arr w none = (arr, w)
  round pr arr w (some f) = append_in_place arr w (appended pr f)

  -- The loop from index `i` on, with `k` fields to go.
  redact_loop : ℕ → PathRedactor → ℕ → List Field → ℕ → List Field × ℕ
  redact_loop zero pr i arr w = (arr, w)
  redact_loop (suc k) pr i arr w =
      let (arr', w') = round pr arr w (get_elem? arr i) in redact_loop k pr (i + 1) arr' w'

  -- `Process`, which always returns nil.
  unfoldable pub process : PathRedactor → Record → Record
  unfolding redact_loop round append_in_place appended
  process pr r =
      let (arr, w) = redact_loop (length r.fields) pr 0 r.fields 0 in
      record r { fields = take w arr }
