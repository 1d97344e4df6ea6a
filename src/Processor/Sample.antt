-- ===== src/Processor/Sample.antt =====
-- `SampleProcessor` of processor.go, with its counters as 64-bit words.
use logger.Base.{
  ℕ, ◌+◌, ◌-◌, ◌*◌, ◌/◌, ◌%◌, ◌^◌, ◌<◌, ◌≡◌, refl, sym, subst, ap, ◌∙◌, ◌≢◌, ◌||◌, Option, none,
  some, List, [], ◌∷◌, arith, if◌then◌else◌, Bool-cases, inl, inr, leb, ◌==◌, min, leb_ℤ, ◌≤ℤ◌,
  ◌<ℤ◌, length,
}
use native.Mathlib.Nat.{
  mod-lt, mod_self, mod-eq_of_lt, div_self, div-eq_of_lt, mod-add-div, add-mul-div_left,
  add-mul-mod_self_left, zero-div,
}
use logger.Level.{Level, level_error}
use logger.Processor.{ProcError, drop}

pub record SampleProcessor : Type 0 where
  pub first : ℕ
  pub thereafter : ℕ
  pub never_below : Level
  pub n : ℕ
  pub dropped : ℕ

unfoldable pub new_sample_processor : ℕ → ℕ → SampleProcessor
new_sample_processor first thereafter = record {
  first = first;
  thereafter = thereafter;
  never_below = level_error;
  n = 0;
  dropped = 0;
}

-- `Add(1)` on an atomic.Uint64
abbrev pub add_one : ℕ → ℕ
add_one c = (c + 1) % 2 ^ 64

-- `Process` on a record of this level. `n - First` is made only where it does not wrap.
unfoldable pub process : SampleProcessor → Level → Option ProcError × SampleProcessor
process p level =
    if leb_ℤ p.never_below level || p.thereafter == 0
    then (none, p)
    else let n = add_one p.n in
      let q = record p { n = n } in
      if leb n p.first
      then (none, q)
      else if (n - p.first) % p.thereafter == 0
      then (none, q)
      else (some drop, record q { dropped = add_one p.dropped })

-- A record at or above `NeverBelow` passes, and the sampler's counters do not see it.
pub process_keeps_errors :
    (p : SampleProcessor) (level : Level) → p.never_below ≤ℤ level → process p level ≡ (none, p)
unfolding process
process_keeps_errors p level h = ground arith

abbrev passed : Option ProcError → ℕ
passed none = 1
passed (some e) = 0

-- The records that pass of a sequence, and the sampler after it.
pub run : SampleProcessor → List Level → ℕ × SampleProcessor
run p [] = (0, p)
run p (l ∷ ls) =
    let (err, p') = process p l in let (kept, p'') = run p' ls in (passed err + kept, p'')

-- How many of the first `k` sampled records are kept.
abbrev pub kept_of : ℕ → ℕ → ℕ → ℕ
kept_of first m k = min k first + (k - first) / m

abbrev pub AllBelow : Level → List Level → Type 0
AllBelow bound [] = Unit {0}
AllBelow bound (l ∷ ls) = (l <ℤ bound) × AllBelow bound ls

-- Division by `m` steps up exactly at its multiples.
abbrev at_multiple : ℕ → ℕ → ℕ
at_multiple a m = if a % m == 0 then 1 else 0

div_suc_below : (r m : ℕ) → r < m → (r + 1) / m ≡ at_multiple (r + 1) m
div_suc_below r m h = elim (Bool-cases (r + 1 == m)) [
  | inl e ↦
      let q : m ≡ r + 1 = ground arith in
      rw (q, div_self {n = r + 1} (omega arith), mod_self (r + 1)) refl
  | inr e ↦
      let lt : r + 1 < m = ground arith in rw (div-eq_of_lt lt, mod-eq_of_lt lt) (ground arith)
]

div_suc : (a m : ℕ) → m ≢ 0 → (a + 1) / m ≡ a / m + at_multiple (a + 1) m
div_suc a m h =
    let split : a + 1 ≡ (a % m + 1) + m * (a / m) = omega (arith, mod-add-div a m) in
    let below : a % m < m = mod-lt a (omega arith) in
    let quotient : (a + 1) / m ≡ (a % m + 1) / m + a / m =
      ap (λ t. t / m) split ∙ add-mul-div_left (a % m + 1) (a / m) (omega arith) in
    let rest : (a + 1) % m ≡ (a % m + 1) % m =
      ap (λ t. t % m) split ∙ add-mul-mod_self_left (a % m + 1) m (a / m) in
    ground (arith, quotient, rest, div_suc_below (a % m) m below)

record Counts (p : SampleProcessor) : Type 0 where
  sampling : p.thereafter ≢ 0
  counted : p.dropped + kept_of p.first p.thereafter p.n ≡ p.n

process-Counts :
    (p : SampleProcessor) (level : Level)
    → Counts p
    → level <ℤ p.never_below
    → p.n + 1 < 2 ^ 64
    → let (err, p') = process p level in
      Counts p'
      × (p'.n ≡ p.n + 1)
      × (p'.first ≡ p.first)
      × (p'.thereafter ≡ p.thereafter)
      × (p'.never_below ≡ p.never_below)
      × (p'.dropped + passed err ≡ p.dropped + 1)
unfolding process
process-Counts p level c h k = ground (arith, div_suc (p.n - p.first) p.thereafter)

-- What a sequence of sampled records does to the sampler.
record Ran (p : SampleProcessor) (k : ℕ) (out : ℕ × SampleProcessor) : Type 0 where
  counts : Counts out.1
  total : out.1.n ≡ p.n + k
  same_first : out.1.first ≡ p.first
  same_thereafter : out.1.thereafter ≡ p.thereafter
  shared : out.1.dropped + out.0 ≡ p.dropped + k

run-Ran :
    (p : SampleProcessor) (ls : List Level)
    → Counts p
    → AllBelow p.never_below ls
    → p.n + length ls < 2 ^ 64
    → Ran p (length ls) (run p ls)
unfolding run
run-Ran p [] c h k = record {
  counts = c;
  total = omega arith;
  same_first = refl;
  same_thereafter = refl;
  shared = omega arith;
}
run-Ran p (l ∷ ls) c h k =
    let one = process-Counts p l c h.0 (omega arith) in
    let rest =
      run-Ran (process p l).1 ls one.0 (subst (λ b. AllBelow b ls) (sym one.4) h.1)
        (omega (arith, one.1)) in
    record {
      counts = rest.counts;
      total = omega (arith, rest.total, one.1);
      same_first = rest.same_first ∙ one.2;
      same_thereafter = rest.same_thereafter ∙ one.3;
      shared = omega (arith, rest.shared, one.5);
    }

-- Of `k` records below ERROR, fewer than 2^64, a fresh sampler whose `thereafter` is not 0 keeps
-- the first `first`, and of the rest one in `thereafter`, rounded down; its drop counter holds
-- exactly the number of the others.
pub run_exact :
    (first thereafter : ℕ) (ls : List Level)
    → thereafter ≢ 0
    → AllBelow level_error ls
    → length ls < 2 ^ 64
    → let (kept, p) = run (new_sample_processor first thereafter) ls in
      (kept ≡ kept_of first thereafter (length ls)) × (p.dropped + kept ≡ length ls)
unfolding new_sample_processor
run_exact first thereafter ls h below small =
    let fresh = new_sample_processor first thereafter in
    let start : Counts fresh = record {
      sampling = h;
      counted = omega (arith, zero-div thereafter);
    } in
    let done = run-Ran fresh ls start below (omega arith) in
    (ground (arith, done, done.counts), omega (arith, done.shared))
