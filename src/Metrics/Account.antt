-- ===== src/Metrics/Account.antt =====
-- The counters by level against the counter of emitted records.
use logger.Base.{
  ℕ, zero, suc, ◌+◌, ◌^◌, ◌≤◌, ◌<◌, ◌≡◌, refl, ◌∙◌, List, [], ◌∷◌, Bytes, Bool-cases, inl, inr, ltb,
  pos, length, length-set, get_or, arith,
}
use logger.Level.{string}
use logger.Metrics.{
  Metrics, zero_metrics, add_u64, bump_level, inc_emitted, add_to, sum_levels, from_one, snapshot,
}

abbrev pub total : List ℕ → ℕ
total [] = 0
total (c ∷ cs) = c + total cs

abbrev pub total_named : List (Bytes × ℕ) → ℕ
total_named [] = 0
total_named ((k, n) ∷ rest) = n + total_named rest

-- The counters by level account for every emitted record, none of which had level 0.
pub record IsConsistent (m : Metrics) : Type 0 where
  pub levels : length m.by_level ≡ 25
  pub unspecified : get_or m.by_level 0 0 ≡ 0
  pub accounted : total m.by_level ≡ m.emitted
  pub small : m.emitted < 2 ^ 64

total-bump :
    (cs : List ℕ) (i : ℕ)
    → i < length cs
    → total cs + 1 < 2 ^ 64
    → total (bump_level cs i) ≡ total cs + 1
total-bump [] i h k = absurd (omega arith)
total-bump (c ∷ cs) zero h k = omega arith
total-bump (c ∷ cs) (suc i) h k = omega (arith, total-bump cs i)

bump-unspecified : (cs : List ℕ) (i : ℕ) → 1 ≤ i → get_or (bump_level cs i) 0 0 ≡ get_or cs 0 0
bump-unspecified [] i h = refl
bump-unspecified (c ∷ cs) zero h = absurd (omega arith)
bump-unspecified (c ∷ cs) (suc i) h = refl

pub zero_metrics-IsConsistent : IsConsistent zero_metrics
zero_metrics-IsConsistent = record {
  levels = refl;
  unspecified = refl;
  accounted = refl;
  small = omega arith;
}

inc_emitted_in_range :
    (m : Metrics) (n : ℕ)
    → n < length m.by_level
    → inc_emitted m (pos n)
      ≡ record m { emitted = add_u64 m.emitted 1; by_level = bump_level m.by_level n }
unfolding inc_emitted
inc_emitted_in_range m n h = ground arith

-- Counting a record of a level from 1 to 24 keeps the counters consistent, up to 2^64 records.
pub inc_emitted-IsConsistent :
    (m : Metrics) (n : ℕ)
    → IsConsistent m
    → 1 ≤ n
    → n ≤ 24
    → m.emitted + 1 < 2 ^ 64
    → IsConsistent (inc_emitted m (pos n))
inc_emitted-IsConsistent m n c h k small =
    rw (inc_emitted_in_range m n (omega (arith, c.levels))) (record {
      levels = length-set m.by_level n _ ∙ c.levels;
      unspecified = bump-unspecified m.by_level n h ∙ c.unspecified;
      accounted = omega (arith, c, total-bump m.by_level n);
      small = omega arith;
    })

total_named-add_to :
    (name : Bytes) (v : ℕ) (acc : List (Bytes × ℕ))
    → total_named acc + v < 2 ^ 64
    → total_named (add_to name v acc) ≡ total_named acc + v
unfolding add_to
total_named-add_to name v [] h = omega arith
total_named-add_to name v ((k, n) ∷ rest) h = ground (arith, total_named-add_to name v rest)

total_named-sum_levels :
    (i : ℕ) (vs : List ℕ) (acc : List (Bytes × ℕ))
    → total_named acc + total vs < 2 ^ 64
    → total_named (sum_levels i vs acc) ≡ total_named acc + total vs
unfolding sum_levels
total_named-sum_levels i [] acc h = omega arith
total_named-sum_levels i (v ∷ vs) acc h = elim (Bool-cases (ltb 0 v)) [
  | inl e ↦
      let added = total_named-add_to (string (pos i)) v acc (omega arith) in
      rw e (omega (arith, added, total_named-sum_levels (suc i) vs (add_to (string (pos i)) v acc)))
  | inr e ↦
      let none_here : v ≡ 0 = ground arith in
      rw e (omega (arith, total_named-sum_levels (suc i) vs acc))
]

total-from_one : (cs : List ℕ) → get_or cs 0 0 ≡ 0 → total (from_one cs) ≡ total cs
total-from_one [] h = refl
total-from_one (c ∷ cs) h = omega arith

-- Of consistent counters the snapshot reports, by the names of the bands, as many records as were
-- emitted in all.
pub total_named-snapshot :
    (m : Metrics) → IsConsistent m → total_named (snapshot m).by_level ≡ (snapshot m).emitted
unfolding snapshot
total_named-snapshot m c =
    let all = total-from_one m.by_level c.unspecified in
    omega (arith, c, all, total_named-sum_levels 1 (from_one m.by_level) [])
