-- ===== src/Processor/Path/Match.antt =====
-- Which keys a pattern matches, as a relation on segments, and what a key's segments are.
use logger.Base.{
  ℕ, ◌≡◌, refl, sym, subst, ap, ◌∙◌, ◌≢◌, ◌↔◌, true, List, [], ◌∷◌, ◌++◌, arith, Bool-cases, inl,
  inr, ◌==◌, Bytes, bytes, bytes_eq, bytes_eq_iff, All,
}
use logger.Processor.Path.{seg_match, split}

-- `**` takes all the segments that are left, none included; `*` takes one; any other segment of a
-- pattern takes its like.
pub data Matches : List Bytes → List Bytes → Type 0 where
  ended : Matches [] []
  tail : {p : Bytes} {ps ks : List Bytes} → p ≡ bytes "**" → Matches (p ∷ ps) ks
  one :
      {p k : Bytes} {ps ks : List Bytes} → p ≡ bytes "*" → Matches ps ks → Matches (p ∷ ps) (k ∷ ks)
  same : {p k : Bytes} {ps ks : List Bytes} → p ≡ k → Matches ps ks → Matches (p ∷ ps) (k ∷ ks)

seg_match_sound : (ps ks : List Bytes) → seg_match ps ks ≡ true → Matches ps ks
unfolding seg_match
seg_match_sound [] [] h = ended
seg_match_sound [] (k ∷ ks) h = cc
seg_match_sound (p ∷ ps) [] h = tail ((bytes_eq_iff p (bytes "**")).0 h)
seg_match_sound (p ∷ ps) (k ∷ ks) h = elim (Bool-cases (bytes_eq p (bytes "**"))) [
  | inl e ↦ tail ((bytes_eq_iff p (bytes "**")).0 e)
  | inr n ↦ elim (Bool-cases (bytes_eq p (bytes "*"))) [
    | inl e ↦ one ((bytes_eq_iff p (bytes "*")).0 e) (seg_match_sound ps ks (ground arith))
    | inr m ↦ elim (Bool-cases (bytes_eq p k)) [
      | inl e ↦ same ((bytes_eq_iff p k).0 e) (seg_match_sound ps ks (ground arith))
      | inr d ↦ absurd (ground arith)
    ]
  ]
]

seg_match_tail : (p : Bytes) (ps ks : List Bytes) → p ≡ bytes "**" → seg_match (p ∷ ps) ks ≡ true
unfolding seg_match
seg_match_tail p ps [] e = (bytes_eq_iff p (bytes "**")).1 e
seg_match_tail p ps (k ∷ ks) e = ground (arith, bytes_eq_iff p (bytes "**"))

seg_match_complete : {ps ks : List Bytes} → Matches ps ks → seg_match ps ks ≡ true
unfolding seg_match
seg_match_complete ended = refl
seg_match_complete (tail {p} {ps} {ks} e) = seg_match_tail p ps ks e
seg_match_complete (one {p} {k} {ps} {ks} e m) =
    ground (arith, seg_match_complete m, bytes_eq_iff p (bytes "*"))
seg_match_complete (same {p} {k} {ps} {ks} e m) =
    ground (arith, seg_match_complete m, bytes_eq_iff p k)

-- `segMatch` answers true exactly for the patterns that match a key: segment by segment, where `**`
-- takes whatever is left of the key, `*` takes any one segment, and any other segment its like.
pub seg_match_iff : (ps ks : List Bytes) → (seg_match ps ks ≡ true) ↔ Matches ps ks
seg_match_iff ps ks = (seg_match_sound ps ks, seg_match_complete)

-- Segments put together again, with a dot between two of them.
abbrev pub join : List Bytes → Bytes
join [] = []
join (s ∷ []) = s
join (s ∷ t ∷ rest) = s ++ (b'.' ∷ join (t ∷ rest))

abbrev pub NoDot : Bytes → Type 0
NoDot = All (λ c. c ≢ b'.')

split-cons : (s : Bytes) → (x : Bytes × List Bytes) × (split s ≡ x.0 ∷ x.1)
unfolding split
split-cons [] = (([], []), refl)
split-cons (c ∷ cs) = elim (Bool-cases (c == b'.')) [
  | inl e ↦ (([], split cs), rw e refl)
  | inr e ↦ let (x, eq) = split-cons cs in ((c ∷ x.0, x.1), rw (e, eq) refl)
]

join-cons_segment :
    (c : ℕ) (seg : Bytes) (segs : List Bytes) → join ((c ∷ seg) ∷ segs) ≡ c ∷ join (seg ∷ segs)
join-cons_segment c seg [] = refl
join-cons_segment c seg (t ∷ rest) = refl

join-split : (s : Bytes) → join (split s) ≡ s
unfolding split
join-split [] = refl
join-split (c ∷ cs) =
    let (x, eq) = split-cons cs in
    let again : join (x.0 ∷ x.1) ≡ cs = ap join (sym eq) ∙ join-split cs in
    elim (Bool-cases (c == b'.')) [
      | inl e ↦ rw (e, eq) (ground (arith, again))
      | inr e ↦ rw (e, eq) (join-cons_segment c x.0 x.1 ∙ ap (λ t. c ∷ t) again)
    ]

split-NoDot : (s : Bytes) → All NoDot (split s)
unfolding split
split-NoDot [] = (tt, tt)
split-NoDot (c ∷ cs) =
    let (x, eq) = split-cons cs in
    let rest : All NoDot (x.0 ∷ x.1) = subst (All NoDot) eq (split-NoDot cs) in
    elim (Bool-cases (c == b'.')) [
      | inl e ↦ rw (e, eq) (tt, rest)
      | inr e ↦ rw (e, eq) ((ground arith, rest.0), rest.1)
    ]

-- `strings.Split` on dots, as it is read here: the segments of a key have no dot, and put together
-- with dots between them they are the key.
pub split_lem : (s : Bytes) → All NoDot (split s) × (join (split s) ≡ s)
split_lem s = (split-NoDot s, join-split s)
