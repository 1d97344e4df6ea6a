-- ===== src/Processor/Redact.antt =====
-- `RedactProcessor` of processor.go.
use logger.Base.{
  ℕ, zero, suc, ◌+◌, ◌≡◌, refl, sym, ap, ap₂, ◌∙◌, ◌⊎◌, Bool, true, false, ◌||◌, Option, none, some,
  List, [], ◌∷◌, ◌++◌, map, append_assoc, arith, if◌then◌else◌, Bool-cases, inl, inr, Bytes, bytes,
  bytes_eq, length, length-append, get_elem?, set,
}
use logger.Field.{Field, string_field}
use logger.Record.{Record}

-- The keys of the map `Deny` in a list.
pub record RedactProcessor : Type 0 where
  pub deny : List Bytes
  pub censor : Bytes

unfoldable pub new_redact_processor : List Bytes → RedactProcessor
new_redact_processor keys = record { deny = keys; censor = bytes "[REDACTED]" }

-- `_, deny := p.Deny[key]`
unfoldable pub denied : List Bytes → Bytes → Bool
unfolding bytes_eq
denied [] key = false
denied (k ∷ ks) key = bytes_eq k key || denied ks key

abbrev pub censor_or_default : Bytes → Bytes
censor_or_default [] = bytes "[REDACTED]"
censor_or_default (c ∷ cs) = c ∷ cs

-- The loop's body on the field at index `i`, if there is one.
redact_at : RedactProcessor → List Field → ℕ → Option Field → List Field
redact_at p fields i none = fields
redact_at p fields i (some f) =
    if denied p.deny f.key
    then set fields i (string_field f.key (censor_or_default p.censor))
    else fields

-- The loop from index `i` on, with `k` fields to go.
redact_loop : ℕ → RedactProcessor → ℕ → List Field → List Field
redact_loop zero p i fields = fields
redact_loop (suc k) p i fields = redact_loop k p (i + 1) (redact_at p fields i (get_elem? fields i))

-- `Process`, which always returns nil.
unfoldable pub process : RedactProcessor → Record → Record
unfolding redact_loop redact_at denied string_field
process p r = record r { fields = redact_loop (length r.fields) p 0 r.fields }

-- A field after the stage, and two lists that only the values of denied fields tell apart.
module _ (p : RedactProcessor) where
  abbrev pub redacted : Field → Field
  redacted f = if denied p.deny f.key then string_field f.key (censor_or_default p.censor) else f

  abbrev pub SameField : Field → Field → Type 0
  SameField f g = (f ≡ g) ⊎ ((f.key ≡ g.key) × (denied p.deny f.key ≡ true))

  abbrev pub SameButDenied : List Field → List Field → Type 0
  SameButDenied [] [] = Unit {0}
  SameButDenied (f ∷ fs) (g ∷ gs) = SameField f g × SameButDenied fs gs
  SameButDenied [] (g ∷ gs) = ⊥
  SameButDenied (f ∷ fs) [] = ⊥

  get_elem?-middle :
      (done rest : List Field) (f : Field) → get_elem? (done ++ (f ∷ rest)) (length done) ≡ some f
  get_elem?-middle [] rest f = refl
  get_elem?-middle (d ∷ ds) rest f = get_elem?-middle ds rest f

  set-middle :
      (done rest : List Field) (f g : Field)
      → set (done ++ (f ∷ rest)) (length done) g ≡ done ++ (g ∷ rest)
  set-middle [] rest f g = refl
  set-middle (d ∷ ds) rest f g = ap (λ t. d ∷ t) (set-middle ds rest f g)

  redact_at-redacted :
      (done rest : List Field) (f : Field)
      → redact_at p (done ++ (f ∷ rest)) (length done) (some f) ≡ done ++ (redacted f ∷ rest)
  unfolding redact_at
  redact_at-redacted done rest f = elim (Bool-cases (denied p.deny f.key)) [
    | inl e ↦ rw e (set-middle done rest f _)
    | inr e ↦ rw e refl
  ]

  redact_loop-map :
      (done fs : List Field) (i : ℕ)
      → i ≡ length done
      → redact_loop (length fs) p i (done ++ fs) ≡ done ++ map redacted fs
  unfolding redact_loop
  redact_loop-map done [] i e = refl
  redact_loop-map done (f ∷ fs) i e =
      rw (e, redact_loop, get_elem?-middle done fs f, redact_at-redacted done fs f)
        (ap (redact_loop (length fs) p (length done + 1))
            (sym (append_assoc done (redacted f ∷ []) fs))
          ∙ redact_loop-map (done ++ (redacted f ∷ [])) fs (length done + 1)
              (omega (arith, length-append done (redacted f ∷ [])))
          ∙ append_assoc done (redacted f ∷ []) (map redacted fs))

  -- The stage rewrites the list in place, each field by itself: a field with a denied key becomes a
  -- string field of that key and the censor, and any other field stays as it is, in its place.
  pub process-redacted : (r : Record) → (process p r).fields ≡ map redacted r.fields
  unfolding process
  process-redacted r = redact_loop-map [] r.fields 0 refl

  redacted_same : (f g : Field) → SameField f g → redacted f ≡ redacted g
  redacted_same f g (inl e) = ap redacted e
  redacted_same f g (inr (k, d)) = rw (← k, d) refl

  map-redacted_same : (fs gs : List Field) → SameButDenied fs gs → map redacted fs ≡ map redacted gs
  map-redacted_same [] [] h = refl
  map-redacted_same (f ∷ fs) (g ∷ gs) h =
      ap₂ ◌∷◌ (redacted_same f g h.0) (map-redacted_same fs gs h.1)
  map-redacted_same [] (g ∷ gs) h = absurd h
  map-redacted_same (f ∷ fs) [] h = absurd h

  -- Nothing of a denied field's value is left: two records whose fields differ in the values of
  -- denied keys only have the same fields after the stage.
  pub process_hides :
      (r s : Record) → SameButDenied r.fields s.fields → (process p r).fields ≡ (process p s).fields
  process_hides r s h =
      process-redacted r ∙ map-redacted_same r.fields s.fields h ∙ sym (process-redacted s)
