-- ===== src/Ring.antt =====
-- A slice used as a ring, as the FingersCrossed buffer and the ring transport use one: the items
-- that it holds, oldest first, and how a write changes them.
use logger.Base.{
  ℕ, zero, suc, ◌+◌, ◌-◌, ◌%◌, ◌≤◌, ◌<◌, ◌≡◌, refl, sym, ap, ap₂, ◌∙◌, ◌≢◌, List, [], ◌∷◌, ◌++◌,
  length, get_or, set, get_or-set_self, get_or-set_ne, arith, Bool-cases, inl, inr, ltb, ltb→lt,
}
use native.Mathlib.Nat.{mod-add-mod, mod-eq_of_lt, mod-eq-sub-mod, mod-lt, mod-mod, add-mod_right}

-- Fewer than `cap` steps round a ring do not come back to the start.
pub add-mod-ne : (cap h k : ℕ) → 0 < k → k < cap → (h + k) % cap ≢ h % cap
add-mod-ne cap h k pos lt e =
    let r = h % cap in
    let below : r < cap = mod-lt h (omega arith) in
    let moved : (r + k) % cap ≡ r = mod-add-mod h cap k ∙ e in
    elim (Bool-cases (ltb (r + k) cap)) [
      | inl small ↦ absurd (omega (arith, moved, mod-eq_of_lt (ltb→lt (r + k) cap small)))
      | inr large ↦
          let over : cap ≤ r + k = ground arith in
          absurd (
            omega (
              arith,
              moved,
              mod-eq-sub-mod over,
              mod-eq_of_lt {n = r + k - cap} {m = cap} (omega arith),
            ))
    ]

module _ {ℓ} {A : Type ℓ} (d : A) (cap : ℕ) where
  -- The `n` items from index `h` on, where `h` may have gone round.
  abbrev pub window : List A → ℕ → ℕ → List A
  window buf h zero = []
  window buf h (suc n) = get_or buf (h % cap) d ∷ window buf (h + 1) n

  pub length-window : (buf : List A) (h n : ℕ) → length (window buf h n) ≡ n
  length-window buf h zero = refl
  length-window buf h (suc n) = ap suc (length-window buf (h + 1) n)

  pub window-same : (buf : List A) (h k n : ℕ) → h % cap ≡ k % cap → window buf h n ≡ window buf k n
  window-same buf h k zero e = refl
  window-same buf h k (suc n) e =
      ap₂ ◌∷◌ (ap (λ i. get_or buf i d) e) (window-same buf (h + 1) (k + 1) n next)
    where
      next : (h + 1) % cap ≡ (k + 1) % cap
      next = sym (mod-add-mod h cap 1) ∙ ap (λ r. (r + 1) % cap) e ∙ mod-add-mod k cap 1

  -- The index may be taken round at any time.
  pub window-mod : (buf : List A) (h n : ℕ) → window buf (h % cap) n ≡ window buf h n
  window-mod buf h n = window-same buf (h % cap) h n (sym-mod h)
    where
      sym-mod : (h : ℕ) → h % cap % cap ≡ h % cap
      sym-mod h = mod-mod h cap

  -- A write past the items leaves them alone.
  pub window-set_past :
      (buf : List A) (v : A) (h n k : ℕ)
      → n ≤ k
      → k < cap
      → window (set buf ((h + k) % cap) v) h n ≡ window buf h n
  window-set_past buf v h zero k le lt = refl
  window-set_past buf v h (suc n) zero le lt = absurd (omega arith)
  window-set_past buf v h (suc n) (suc k) le lt =
      ap₂ ◌∷◌
        (get_or-set_ne buf ((h + suc k) % cap) (h % cap) v d
          (add-mod-ne cap h (suc k) (omega arith) lt))
        (ap (λ i. window (set buf (i % cap) v) (h + 1) n) (omega arith)
          ∙ window-set_past buf v (h + 1) n k (omega arith) (omega arith))

  pub window-snoc :
      (buf : List A) (h n : ℕ)
      → window buf h (suc n) ≡ window buf h n ++ (get_or buf ((h + n) % cap) d ∷ [])
  window-snoc buf h zero = ap (λ i. get_or buf (i % cap) d ∷ []) (omega arith)
  window-snoc buf h (suc n) =
      ap (λ t. get_or buf (h % cap) d ∷ t)
        (window-snoc buf (h + 1) n
          ∙ ap (λ i. window buf (h + 1) n ++ (get_or buf (i % cap) d ∷ [])) (omega arith))

  -- A write just behind the items adds an item.
  pub window-set_next :
      (buf : List A) (v : A) (h n : ℕ)
      → cap ≤ length buf
      → n < cap
      → window (set buf ((h + n) % cap) v) h (suc n) ≡ window buf h n ++ (v ∷ [])
  window-set_next buf v h n le lt =
      window-snoc (set buf ((h + n) % cap) v) h n
      ∙ ap₂ (λ xs x. xs ++ (x ∷ [])) (window-set_past buf v h n n (omega arith) lt)
          (get_or-set_self buf ((h + n) % cap) v d
            (omega (arith, mod-lt (h + n) {m = cap} (omega arith))))

  -- A full ring: the write at the oldest item's index replaces it by a newest one.
  pub window-set_full :
      (buf : List A) (v : A) (h n : ℕ)
      → cap ≤ length buf
      → cap ≡ suc n
      → window (set buf (h % cap) v) (h + 1) (suc n) ≡ window buf (h + 1) n ++ (v ∷ [])
  window-set_full buf v h n le e =
      ap (λ i. window (set buf i v) (h + 1) (suc n)) round
      ∙ window-set_next buf v (h + 1) n le (omega arith)
    where
      round : h % cap ≡ (h + 1 + n) % cap
      round = sym (add-mod_right h cap) ∙ ap (λ i. i % cap) (omega arith)

  -- The slot of the oldest item may be cleared once it is taken.
  pub window-set_first :
      (buf : List A) (v : A) (h n : ℕ)
      → n < cap
      → window (set buf (h % cap) v) (h + 1) n ≡ window buf (h + 1) n
  window-set_first buf v h n lt =
      ap (λ i. window (set buf i v) (h + 1) n) round
      ∙ window-set_past buf v (h + 1) n (cap - 1) (omega arith) (omega arith)
    where
      round : h % cap ≡ (h + 1 + (cap - 1)) % cap
      round = sym (add-mod_right h cap) ∙ ap (λ i. i % cap) (omega arith)
