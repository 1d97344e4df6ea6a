-- ===== src/Processor/Path/Stage.antt =====
-- `PathRedactor.Process`: the loop that filters a slice in place, and what the stage hides.
use logger.Base.{
  ℕ, ◌+◌, ◌≡◌, refl, sym, subst, ap, ap₂, ◌∙◌, ◌≢◌, ◌⊎◌, true, some, List, [], ◌∷◌, ◌++◌,
  append-nil, append_assoc, arith, Bool-cases, inl, inr, Bytes, length, length-append, get_elem?,
  set, take,
}
use logger.Field.{Field, AnyVal}
use logger.Record.{Record}
use logger.Processor.Path.{
  Strategy, mask, hash, drop, PathRedactor, matches, replacement, appended, append_in_place, round,
  redact_loop, process,
}

module _ (sum8 : Bytes → Bytes) (sprint : AnyVal → Bytes) (pr : PathRedactor) where
  -- The fields after the stage, field by field and with no array.
  abbrev pub redacted : List Field → List Field
  redacted [] = []
  redacted (f ∷ fs) = appended sum8 sprint pr f ++ redacted fs

  replacement_short :
      (s : Strategy) (f : Field)
      → (replacement sum8 sprint pr s f ≡ [])
        ⊎ ((g : Field) × (replacement sum8 sprint pr s f ≡ g ∷ []))
  unfolding replacement
  replacement_short drop f = inl refl
  replacement_short hash f = inr (_, refl)
  replacement_short mask f = inr (_, refl)

  appended_short :
      (f : Field)
      → (appended sum8 sprint pr f ≡ []) ⊎ ((g : Field) × (appended sum8 sprint pr f ≡ g ∷ []))
  unfolding appended
  appended_short f = elim (Bool-cases (matches pr f.key)) [
    | inl e ↦ rw e (replacement_short pr.strategy f)
    | inr e ↦ rw e (inr (f, refl))
  ]

  get_elem?-at :
      (xs rest : List Field) (f : Field) → get_elem? (xs ++ (f ∷ rest)) (length xs) ≡ some f
  get_elem?-at [] rest f = refl
  get_elem?-at (x ∷ xs) rest f = get_elem?-at xs rest f

  set-at :
      (xs rest : List Field) (f g : Field) → set (xs ++ (f ∷ rest)) (length xs) g ≡ xs ++ (g ∷ rest)
  set-at [] rest f g = refl
  set-at (x ∷ xs) rest f g = ap (λ t. x ∷ t) (set-at xs rest f g)

  take-at : (xs rest : List Field) → take (length xs) (xs ++ rest) ≡ xs
  take-at [] rest = refl
  take-at (x ∷ xs) rest = ap (λ t. x ∷ t) (take-at xs rest)

  -- The fields between `dst` and the loop's index once `g` is written and `f` is read.
  gap_after : List Field → Field → List Field
  gap_after [] f = []
  gap_after (h ∷ gap) f = gap ++ (f ∷ [])

  length-gap_after : (gap : List Field) (f : Field) → length (gap_after gap f) ≡ length gap
  unfolding gap_after
  length-gap_after [] f = refl
  length-gap_after (h ∷ gap) f = omega (arith, length-append gap (f ∷ []))

  set-gap :
      (out gap rest : List Field) (f g : Field)
      → set (out ++ (gap ++ (f ∷ rest))) (length out) g
        ≡ (out ++ (g ∷ [])) ++ (gap_after gap f ++ rest)
  unfolding gap_after
  set-gap out [] rest f g = set-at out rest f g ∙ sym (append_assoc out (g ∷ []) rest)
  set-gap out (h ∷ gap) rest f g = set-at out (gap ++ (f ∷ rest)) h g ∙ simp append_assoc

  round_drops :
      (arr : List Field) (w : ℕ) (f : Field)
      → appended sum8 sprint pr f ≡ []
      → round sum8 sprint pr arr w (some f) ≡ (arr, w)
  unfolding round append_in_place
  round_drops arr w f e = rw e refl

  round_writes :
      (arr : List Field) (w : ℕ) (f g : Field)
      → appended sum8 sprint pr f ≡ g ∷ []
      → round sum8 sprint pr arr w (some f) ≡ (set arr w g, w + 1)
  unfolding round append_in_place
  round_writes arr w f g e = rw e refl

  get_elem?-loop :
      (arr out gap fs : List Field) (f : Field) (i : ℕ)
      → arr ≡ out ++ (gap ++ (f ∷ fs))
      → i ≡ length out + length gap
      → get_elem? arr i ≡ some f
  get_elem?-loop arr out gap fs f i ha hi =
      let whole : arr ≡ (out ++ gap) ++ (f ∷ fs) = ha ∙ sym (append_assoc out gap (f ∷ fs)) in
      rw (whole, hi, ← length-append out gap) (get_elem?-at (out ++ gap) fs f)

  -- `out` is `dst`, `gap` the fields that the loop has passed and `dst` has not overwritten yet.
  redact_loop-redacted :
      (arr out gap fs : List Field) (i w : ℕ)
      → arr ≡ out ++ (gap ++ fs)
      → i ≡ length out + length gap
      → w ≡ length out
      → let (arr', w') = redact_loop sum8 sprint (length fs) pr i arr w in
        take w' arr' ≡ out ++ redacted fs
  unfolding redact_loop
  redact_loop-redacted arr out gap [] i w ha hi hw =
      rw (ha, hw, take-at out (gap ++ []), append-nil) refl
  redact_loop-redacted arr out gap (f ∷ fs) i w ha hi hw = elim (appended_short f) [
    | inl e ↦
        let step : round sum8 sprint pr arr w (get_elem? arr i) ≡ (arr, w) =
          rw (get_elem?-loop arr out gap fs f i ha hi) (round_drops arr w f e) in
        rw (step, redact_loop, e)
          (redact_loop-redacted arr out (gap ++ (f ∷ [])) fs (i + 1) w (ha ∙ simp append_assoc)
            (omega (arith, length-append gap (f ∷ []))) hw)
    | inr (g, e) ↦
        let step : round sum8 sprint pr arr w (get_elem? arr i) ≡ (set arr w g, w + 1) =
          rw (get_elem?-loop arr out gap fs f i ha hi) (round_writes arr w f g e) in
        rw (step, redact_loop, e)
          (redact_loop-redacted (set arr w g) (out ++ (g ∷ [])) (gap_after gap f) fs (i + 1) (w + 1)
              (rw (ha, hw) (set-gap out gap fs f g))
              (omega (arith, length-append out (g ∷ []), length-gap_after gap f))
              (omega (arith, length-append out (g ∷ [])))
            ∙ append_assoc out (g ∷ []) (redacted fs))
  ]

  -- The loop, which overwrites the slice that it reads, yields what a loop on a copy would: every
  -- field that no pattern matches as it is, in order, and for every other one its replacement, no
  -- field at all under the strategy Drop.
  pub path_process-redacted : (r : Record) → (process sum8 sprint pr r).fields ≡ redacted r.fields
  unfolding process
  path_process-redacted r = redact_loop-redacted r.fields [] [] r.fields 0 0 refl refl refl

  -- Two fields alike, but perhaps for the value of one that a pattern matches.
  abbrev pub SameField : Field → Field → Type 0
  SameField f g = (f ≡ g) ⊎ ((f.key ≡ g.key) × (matches pr f.key ≡ true))

  abbrev pub SameButMatched : List Field → List Field → Type 0
  SameButMatched [] [] = Unit {0}
  SameButMatched (f ∷ fs) (g ∷ gs) = SameField f g × SameButMatched fs gs
  SameButMatched [] (g ∷ gs) = ⊥
  SameButMatched (f ∷ fs) [] = ⊥

  replacement_same :
      (s : Strategy) (f g : Field)
      → s ≢ hash
      → f.key ≡ g.key
      → replacement sum8 sprint pr s f ≡ replacement sum8 sprint pr s g
  unfolding replacement
  replacement_same mask f g h k = rw k refl
  replacement_same drop f g h k = refl
  replacement_same hash f g h k = absurd (h refl)

  appended_same :
      (f g : Field)
      → pr.strategy ≢ hash
      → SameField f g
      → appended sum8 sprint pr f ≡ appended sum8 sprint pr g
  unfolding appended
  appended_same f g h (inl e) = ap (appended sum8 sprint pr) e
  appended_same f g h (inr (k, m)) =
      let m' : matches pr g.key ≡ true = subst (λ x. matches pr x ≡ true) k m in
      rw (m, m') (replacement_same pr.strategy f g h k)

  redacted_same :
      (fs gs : List Field) → pr.strategy ≢ hash → SameButMatched fs gs → redacted fs ≡ redacted gs
  redacted_same [] [] h s = refl
  redacted_same (f ∷ fs) (g ∷ gs) h s =
      ap₂ ◌++◌ (appended_same f g h s.0) (redacted_same fs gs h s.1)
  redacted_same [] (g ∷ gs) h s = absurd s
  redacted_same (f ∷ fs) [] h s = absurd s

  -- Under the strategies Mask and Drop nothing of a matched field's value is left: records whose
  -- fields differ in the values of matched keys only have the same fields after the stage.
  pub path_process_hides :
      (r s : Record)
      → pr.strategy ≢ hash
      → SameButMatched r.fields s.fields
      → (process sum8 sprint pr r).fields ≡ (process sum8 sprint pr s).fields
  path_process_hides r s h same =
      path_process-redacted r
      ∙ redacted_same r.fields s.fields h same
      ∙ sym (path_process-redacted s)
