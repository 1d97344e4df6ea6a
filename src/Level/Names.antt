-- ===== src/Level/Names.antt =====
-- The names of a level against the numbers that they stand for.
use logger.Base.{
  ℕ, zero, suc, ◌≤◌, ◌<◌, ◌≡◌, refl, ◌⊎◌, inl, inr, Bool, true, false, ◌&&◌, none, some, Option,
  arith, if◌then◌else◌, Bool-cases, ltb, ℤ, pos, ◌≤ℤ◌, ◌<ℤ◌, ltb_ℤ, ◌+ℤ◌, eq_ℤ, map, atoi, Bytes,
}
use logger.Level.{
  Level, level_trace, level_debug, level_info, level_warn, level_error, level_fatal, lower,
  lower_byte, marshal_text, append_numeric, parse_lowered, parse_level, in_range, trim_space,
}

-- `MarshalText` and the allocation-free `lower` give the same name to every level.
pub marshal_text-eq-lower : (l : Level) → marshal_text l ≡ lower l
unfolding marshal_text lower
marshal_text-eq-lower l = ground arith

-- The anchor of the band that a positive level lies in.
abbrev pub band : Level → Level
band l =
    if ltb_ℤ l level_debug
    then level_trace
    else if ltb_ℤ l level_info
    then level_debug
    else if ltb_ℤ l level_warn
    then level_info
    else if ltb_ℤ l level_error
    then level_warn
    else if ltb_ℤ l level_fatal
    then level_error
    else level_fatal

parse_level-lower-band : (l : Level) → pos 1 ≤ℤ l → parse_level (lower l) ≡ some (band l)
unfolding parse_level lower
parse_level-lower-band l h = ground arith

-- The name of a positive level is read back as the anchor of its band: the greatest named level
-- that is not above it, under the same name.
pub parse_level-lower :
    (l : Level)
    → pos 1 ≤ℤ l
    → (parse_level (lower l) ≡ some (band l))
      × (band l ≤ℤ l)
      × (lower (band l) ≡ lower l)
      × (band l ≡ level_fatal ⊎ l <ℤ (pos 4 +ℤ band l))
unfolding lower
parse_level-lower l h = (parse_level-lower-band l h, ground arith, ground arith, ground arith)

in_range_bounds : (o : Option ℤ) (l : Level) → in_range o ≡ some l → (pos 1 ≤ℤ l) × (l ≤ℤ pos 24)
in_range_bounds none l h = cc
in_range_bounds (some n) l h = ground arith

parse_lowered_bounds :
    (s : Bytes) (l : Level) → parse_lowered s ≡ some l → (pos 1 ≤ℤ l) × (l ≤ℤ pos 24)
unfolding parse_lowered
parse_lowered_bounds s l h = ground (arith, in_range_bounds (atoi s) l)

-- Whatever text is read as a level, the level is a SeverityNumber from 1 to 24.
pub parse_level_bounds :
    (s : Bytes) (l : Level) → parse_level s ≡ some l → (pos 1 ≤ℤ l) × (l ≤ℤ pos 24)
unfolding parse_level
parse_level_bounds s l h = parse_lowered_bounds (trim_space (map lower_byte s)) l h

reads_number : ℕ → Bool
reads_number n = elim (parse_level (append_numeric (pos n))) [
  | none ↦ false
  | some l ↦ eq_ℤ l (pos n)
]

all_from_one : ℕ → Bool
all_from_one zero = true
all_from_one (suc n) = reads_number (suc n) && all_from_one n

all_from_one_sound : (n m : ℕ) → all_from_one n ≡ true → m < n → reads_number (suc m) ≡ true
unfolding all_from_one
all_from_one_sound zero m h lt = absurd (omega arith)
all_from_one_sound (suc n) m h lt = elim (Bool-cases (ltb m n)) [
  | inl e ↦ ground (arith, all_from_one_sound n m)
  | inr e ↦ let q : m ≡ n = ground arith in rw q (ground arith)
]

numbers_table : all_from_one 24 ≡ true
unfolding all_from_one reads_number parse_level append_numeric
numbers_table = refl

reads_number_sound :
    (n : ℕ) → reads_number n ≡ true → parse_level (append_numeric (pos n)) ≡ some (pos n)
unfolding reads_number
reads_number_sound n h = ground arith

-- Every SeverityNumber from 1 to 24 is printed as a number that is read back as itself.
pub parse_level-append_numeric :
    (n : ℕ) → 1 ≤ n → n ≤ 24 → parse_level (append_numeric (pos n)) ≡ some (pos n)
parse_level-append_numeric (suc m) h k =
    reads_number_sound (suc m) (all_from_one_sound 24 m numbers_table (omega arith))
parse_level-append_numeric zero h k = absurd (omega arith)
