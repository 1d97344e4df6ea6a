-- ===== src/Base/Decimal.antt =====
-- The decimal texts of strconv that the program writes and reads: AppendInt, AppendUint, ParseUint
-- and Atoi at base 10 and 64 bits.
use Prim.Native.Nat.{ℕ, zero, suc, ◌+◌, ◌-◌, ◌*◌, ◌/◌, ◌%◌, ◌^◌, ◌≤◌, ◌<◌}
use mathlib.Core.Path.{◌≡◌, refl, sym, subst, ◌∙◌, ap}
use mathlib.Core.Logic.{◌≢◌, inl, inr}
use mathlib.Core.Bool.{Bool, ◌&&◌}
use mathlib.Core.Option.{Option, none, some}
use mathlib.Core.List.{[], ◌∷◌}
use native.Mathlib.Omega.{arith}
use logger.Base.Tests.{ltb, leb, ◌==◌, if◌then◌else◌, Bool-cases, lt→ltb}
use logger.Base.Text.{Bytes}
use logger.Base.Lists.{All}
use logger.Base.Int.{ℤ, pos, negsuc}

abbrev pub digit : ℕ → ℕ
digit n = b'0' + n % 10

abbrev pub is_digit : ℕ → Bool
is_digit c = leb b'0' c && leb c b'9'

-- The digits of `n` in front of `acc`; no digit for 0.
unfoldable pub digits_onto : ℕ → ℕ → Bytes → Bytes
digits_onto zero n acc = acc
digits_onto (suc f) n acc =
    let rest = digits_onto f (n / 10) (digit n ∷ acc) in if n == 0 then acc else rest

unfoldable pub decimal : ℕ → Bytes
unfolding digits_onto
decimal n = if n == 0 then b'0' ∷ [] else digits_onto n n []

unfoldable pub append_int : ℤ → Bytes
unfolding decimal
append_int (pos n) = decimal n
append_int (negsuc n) = b'-' ∷ decimal (suc n)

-- The number that digits read after a value `acc` make.
unfoldable pub read_onto : ℕ → Bytes → Option ℕ
read_onto acc [] = some acc
read_onto acc (c ∷ cs) = if is_digit c then read_onto (acc * 10 + (c - b'0')) cs else none

unfoldable pub read_decimal : Bytes → Option ℕ
unfolding read_onto
read_decimal [] = none
read_decimal (c ∷ cs) = read_onto 0 (c ∷ cs)

abbrev pub below : ℕ → Option ℕ → Option ℕ
below limit none = none
below limit (some n) = if ltb n limit then some n else none

unfoldable pub parse_uint : Bytes → Option ℕ
unfolding read_decimal
parse_uint s = below (2 ^ 64) (read_decimal s)

abbrev negate : Option ℕ → Option ℤ
negate none = none
negate (some zero) = some (pos 0)
negate (some (suc n)) = some (negsuc n)

abbrev positive : Option ℕ → Option ℤ
positive none = none
positive (some n) = some (pos n)

unfoldable pub atoi : Bytes → Option ℤ
unfolding read_decimal
atoi [] = none
atoi (c ∷ cs) =
    if c == b'-'
    then negate (below (2 ^ 63 + 1) (read_decimal cs))
    else if c == b'+'
    then positive (below (2 ^ 63) (read_decimal cs))
    else positive (below (2 ^ 63) (read_decimal (c ∷ cs)))

read_onto-digit :
    (a n : ℕ) (cs : Bytes) → read_onto a (digit n ∷ cs) ≡ read_onto (a * 10 + n % 10) cs
unfolding read_onto
read_onto-digit a n cs = ground arith

pub read_onto-digits_onto :
    (f n : ℕ) (acc : Bytes) → n ≤ f → read_onto 0 (digits_onto f n acc) ≡ read_onto n acc
unfolding digits_onto
read_onto-digits_onto zero n acc h = ap (λ k. read_onto k acc) (omega arith)
read_onto-digits_onto (suc f) n acc h = elim (Bool-cases (n == 0)) [
  | inl e ↦ rw e (ap (λ k. read_onto k acc) (ground arith))
  | inr e ↦ rw e (
      read_onto-digits_onto f (n / 10) (digit n ∷ acc) (ground arith)
      ∙ read_onto-digit (n / 10) n acc
      ∙ ap (λ k. read_onto k acc) (omega arith))
]

digits_onto-ne-nil : (f n : ℕ) (acc : Bytes) → acc ≢ [] → digits_onto f n acc ≢ []
unfolding digits_onto
digits_onto-ne-nil zero n acc h = h
digits_onto-ne-nil (suc f) n acc h = elim (Bool-cases (n == 0)) [
  | inl e ↦ rw e h
  | inr e ↦ rw e (digits_onto-ne-nil f (n / 10) (digit n ∷ acc) (λ p. cc))
]

decimal-suc : (n : ℕ) → decimal (suc n) ≡ digits_onto n (suc n / 10) (digit (suc n) ∷ [])
unfolding decimal digits_onto
decimal-suc n = ground arith

decimal-ne-nil : (n : ℕ) → decimal n ≢ []
unfolding decimal
decimal-ne-nil zero p = cc
decimal-ne-nil (suc n) p =
    digits_onto-ne-nil n (suc n / 10) (digit (suc n) ∷ []) (λ q. cc) (sym (decimal-suc n) ∙ p)

read_decimal-eq-read_onto : (s : Bytes) → s ≢ [] → read_decimal s ≡ read_onto 0 s
unfolding read_decimal
read_decimal-eq-read_onto [] h = absurd (h refl)
read_decimal-eq-read_onto (c ∷ cs) h = refl

read_onto-decimal : (n : ℕ) → read_onto 0 (decimal n) ≡ some n
unfolding decimal read_onto
read_onto-decimal zero = refl
read_onto-decimal (suc n) =
    ap (read_onto 0) (decimal-suc n)
    ∙ read_onto-digits_onto n (suc n / 10) (digit (suc n) ∷ []) (omega arith)
    ∙ read_onto-digit (suc n / 10) (suc n) []
    ∙ ap some (omega arith)

-- A printed number is read back.
pub read_decimal-decimal : (n : ℕ) → read_decimal (decimal n) ≡ some n
read_decimal-decimal n =
    read_decimal-eq-read_onto (decimal n) (decimal-ne-nil n) ∙ read_onto-decimal n

pub parse_uint-decimal : (n : ℕ) → n < 2 ^ 64 → parse_uint (decimal n) ≡ some n
unfolding parse_uint
parse_uint-decimal n h = rw (read_decimal-decimal n) (rw (lt→ltb _ _ h))

abbrev pub IsDigit : ℕ → Type 0
IsDigit c = (b'0' ≤ c) × (c ≤ b'9')

digits_onto-IsDigit : (f n : ℕ) (acc : Bytes) → All IsDigit acc → All IsDigit (digits_onto f n acc)
unfolding digits_onto
digits_onto-IsDigit zero n acc h = h
digits_onto-IsDigit (suc f) n acc h = elim (Bool-cases (n == 0)) [
  | inl e ↦ rw e h
  | inr e ↦ rw e (digits_onto-IsDigit f (n / 10) (digit n ∷ acc) (omega arith, h))
]

pub decimal-IsDigit : (n : ℕ) → All IsDigit (decimal n)
unfolding decimal
decimal-IsDigit zero = omega arith
decimal-IsDigit (suc n) =
    subst (All IsDigit) (sym (decimal-suc n))
      (digits_onto-IsDigit n (suc n / 10) (digit (suc n) ∷ []) (omega arith, tt))
