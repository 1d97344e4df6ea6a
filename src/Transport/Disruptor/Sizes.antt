-- ===== src/Transport/Disruptor/Sizes.antt =====
-- The size of the queue, and the mask that stands for a remainder.
use Prim.Native.Nat.{min, bit_and, digits, bit_and-bitwise}
use native.Mathlib.Nat.{div-add-mod, add-mul-mod_self_left, mod-lt, mod-eq_of_lt}
use logger.Base.{
  ℕ, zero, suc, ◌+◌, ◌-◌, ◌*◌, ◌/◌, ◌%◌, ◌^◌, ◌<◌, ◌≤◌, ◌≡◌, refl, sym, ap, subst, ◌∙◌, ◌⊎◌, inl,
  inr, Bool-cases, ltb, arith,
}
use logger.Transport.Disruptor.Delivery.{round_up_two}
use logger.Transport.Disruptor.{slot, round_up, new_mpmc}

power : ℕ → ℕ
power zero = 1
power (suc k) = 2 * power k

power_positive : (k : ℕ) → 0 < power k
unfolding power
power_positive zero = omega arith
power_positive (suc k) = omega (arith, power_positive k)

-- The remainder by an even number, from its lowest digit.
mod_double : (n a : ℕ) → 0 < n → a % (2 * n) ≡ (a / 2 % n) * 2 + a % 2
mod_double n a h =
    let low = (a / 2 % n) * 2 + a % 2 in
    let below : a / 2 % n < n = mod-lt (a / 2) h in
    let whole : a ≡ low + (2 * n) * (a / 2 / n) = grind (arith, div-add-mod (a / 2) n) in
    ap (λ x. x % (2 * n)) whole
    ∙ add-mul-mod_self_left low (2 * n) (a / 2 / n)
    ∙ mod-eq_of_lt (omega arith)

no_ones : (f a : ℕ) → digits (λ b. zero) min f a 0 ≡ 0
no_ones zero a = refl
no_ones (suc f) zero = refl
no_ones (suc f) (suc a) = omega (arith, no_ones f (suc a / 2))

-- The digits of `a` that stand where the mask has ones are those of the remainder.
masked : (f k a m : ℕ) → a ≤ f → m + 1 ≡ power k → digits (λ b. zero) min f a m ≡ a % power k
unfolding power
masked zero k a m h e =
    let none_left : 0 ≡ a = omega arith in
    subst (λ x. 0 ≡ x % power k) none_left (sym (mod-eq_of_lt (power_positive k)))
masked (suc f) k zero m h e = sym (mod-eq_of_lt (power_positive k))
masked (suc f) zero (suc a) m h e =
    let no_mask : m ≡ 0 = omega arith in
    ap (digits (λ b. zero) min (suc f) (suc a)) no_mask ∙ no_ones (suc f) (suc a) ∙ omega arith
masked (suc f) (suc k) (suc a) m h e =
    let half : m / 2 + 1 ≡ power k = omega arith in
    let odd : m % 2 ≡ 1 = omega arith in
    let rest = masked f k (suc a / 2) (m / 2) (omega arith) half in
    omega (arith, rest, odd, mod_double (power k) (suc a) (power_positive k))

doublings : ℕ → ℕ → ℕ
doublings zero n = n
doublings (suc f) n = doublings f (2 * n)

-- The loop of `newMPMC` from a power of two, with rounds enough for the size.
rounds :
    (f k n size : ℕ)
    → n ≡ power k
    → size ≤ doublings f n
    → (size ≤ round_up f n size)
      × ((round_up f n size ≡ n) ⊎ (round_up f n size < 2 * size))
      × (j : ℕ) × (round_up f n size ≡ power j)
unfolding round_up doublings power
rounds zero k n size e h = (h, inl refl, k, e)
rounds (suc f) k n size e h = elim (Bool-cases (ltb n size)) [
  | inl more ↦
      let small : n < size = ground arith in
      let (enough, tight, j, is) = rounds f (suc k) (2 * n) size (omega arith) h in
      rw more (enough, inr (elim tight [ inl same ↦ omega (arith, same) | inr less ↦ less ]), j, is)
  | inr done ↦ let large : size ≤ n = ground arith in rw done (large, inl refl, k, e)
]

-- For any size up to 2^62 the loop of newMPMC ends because the number of cells has reached it, not
-- because the rounds of the model do: there are as many cells as asked for, and at least two, but
-- no more than two or fewer than twice as many; and the mask picks the cell of a position by its
-- remainder by that number.
pub new_mpmc_terminates :
    (size p : ℕ)
    → size ≤ 2 ^ 62
    → let q = new_mpmc size in
      (size ≤ q.mask + 1)
      × (2 ≤ q.mask + 1)
      × ((q.mask + 1 ≡ 2) ⊎ (q.mask + 1 < 2 * size))
      × (bit_and p q.mask ≡ slot q p)
unfolding new_mpmc
new_mpmc_terminates size p h =
    let n = round_up 64 2 size in
    let (enough, tight, j, is) =
      rounds 64 1 2 size (unfold power in refl) (unfold doublings in omega arith) in
    let two : 2 ≤ n = round_up_two 64 2 size (omega arith) in
    let whole : n - 1 + 1 ≡ n = omega arith in
    (
      omega arith,
      omega arith,
      elim tight [ inl same ↦ inl (omega (arith, same)) | inr less ↦ inr (omega (arith, less)) ],
      bit_and-bitwise p (n - 1)
          ∙ masked p j p (n - 1) (omega arith) (whole ∙ is)
          ∙ ap (λ x. p % x) (sym (whole ∙ is)),
    )
