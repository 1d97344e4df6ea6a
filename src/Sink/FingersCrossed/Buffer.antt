-- ===== src/Sink/FingersCrossed/Buffer.antt =====
-- The ring of a FingersCrossed buffer against a bounded queue that loses its oldest item.
use logger.Base.{
  ℕ, zero, suc, ◌+◌, ◌-◌, ◌%◌, ◌≤◌, ◌<◌, ◌≡◌, refl, sym, ap, ◌∙◌, Option, none, some, List, [], ◌∷◌,
  ◌++◌, arith, if◌then◌else◌, ◌==◌, length, length-set, length-replicate, get_or, set, Bool-cases,
  inl, inr, false, true, ==_iff,
}
use native.Mathlib.Nat.{mod-lt, mod-eq_of_lt}
use logger.Ring.{window, length-window, window-mod, window-set_next, window-set_full}
use logger.Record.{Record}
use logger.Sink.FingersCrossed.{FcBuffer, new_fc_buffer, push, drain_from, drain}

abbrev pub Slot : Type 0
Slot = Option Record

pub record IsValid (b : FcBuffer) : Type 0 where
  pub room : 0 < b.cap
  pub storage : length b.ring ≡ b.cap
  pub start_in : b.start < b.cap
  pub count_in : b.count ≤ b.cap

-- The records that a buffer holds, oldest first.
abbrev pub contents : FcBuffer → List Slot
contents b = window none b.cap b.ring b.start b.count

abbrev pub tail : List Slot → List Slot
tail [] = []
tail (x ∷ xs) = xs

-- A queue of at most `cap` items: at its bound, a new item takes the place of the oldest.
abbrev pub push_bounded : ℕ → List Slot → Slot → List Slot
push_bounded cap q x = if length q == cap then tail q ++ (x ∷ []) else q ++ (x ∷ [])

abbrev no_slot : Slot
no_slot = none

pub new_fc_buffer-IsValid : (n : ℕ) → IsValid (new_fc_buffer n)
unfolding new_fc_buffer
new_fc_buffer-IsValid n = ground (arith, length-replicate n no_slot, length-replicate 256 no_slot)

push-IsValid : (b : FcBuffer) (r : Record) → IsValid b → IsValid (push b r)
unfolding push
push-IsValid b r v = ground (
  arith,
  length-set b.ring b.start (some r),
  length-set b.ring ((b.start + b.count) % b.cap) (some r),
  mod-lt (b.start + 1) v.room,
)

full_window :
    (b : FcBuffer) (n : ℕ) (r : Record)
    → IsValid b
    → b.cap ≡ suc n
    → window none b.cap (set b.ring b.start (some r)) ((b.start + 1) % b.cap) (suc n)
      ≡ tail (window none b.cap b.ring b.start (suc n)) ++ (some r ∷ [])
full_window b n r v e =
    window-mod none b.cap (set b.ring b.start (some r)) (b.start + 1) (suc n)
    ∙ ap (λ i. window none b.cap (set b.ring i (some r)) (b.start + 1) (suc n))
        (sym (mod-eq_of_lt v.start_in))
    ∙ window-set_full none b.cap b.ring (some r) b.start n (omega (arith, v)) e

push_full :
    (b : FcBuffer) (r : Record)
    → (b.count == b.cap) ≡ true
    → push b r ≡ record b { ring = set b.ring b.start (some r); start = (b.start + 1) % b.cap }
unfolding push
push_full b r e = simp e

push_room :
    (b : FcBuffer) (r : Record)
    → (b.count == b.cap) ≡ false
    → push b r
      ≡ record b { ring = set b.ring ((b.start + b.count) % b.cap) (some r); count = b.count + 1 }
unfolding push
push_room b r e = simp e

contents-push_full :
    (b : FcBuffer) (n : ℕ) (r : Record)
    → IsValid b
    → b.cap ≡ suc n
    → (b.count == b.cap) ≡ true
    → contents (push b r) ≡ tail (contents b) ++ (some r ∷ [])
contents-push_full b n r v e f =
    let all : b.count ≡ suc n = (==_iff b.count b.cap).0 f ∙ e in
    let ring' = set b.ring b.start (some r) in
    ap contents (push_full b r f)
    ∙ ap (window none b.cap ring' ((b.start + 1) % b.cap)) all
    ∙ full_window b n r v e
    ∙ ap (λ k. tail (window none b.cap b.ring b.start k) ++ (some r ∷ [])) (sym all)

contents-push_room :
    (b : FcBuffer) (r : Record)
    → IsValid b
    → (b.count == b.cap) ≡ false
    → contents (push b r) ≡ contents b ++ (some r ∷ [])
contents-push_room b r v f =
    let ring' = set b.ring ((b.start + b.count) % b.cap) (some r) in
    let more : b.count + 1 ≡ suc b.count = omega arith in
    ap contents (push_room b r f)
    ∙ ap (window none b.cap ring' b.start) more
    ∙ window-set_next none b.cap b.ring (some r) b.start b.count (omega (arith, v))
        (ground (arith, v))

-- Pushed to, the ring of a valid buffer does what a bounded queue does that loses its oldest item
-- when it is full, and the buffer stays valid.
pub push_refines :
    (b : FcBuffer) (r : Record)
    → IsValid b
    → IsValid (push b r) × (contents (push b r) ≡ push_bounded b.cap (contents b) (some r))
push_refines b r v = (
  push-IsValid b r v,
  elim (Bool-cases (b.count == b.cap)) [
    | inl f ↦
        rw (length-window none b.cap b.ring b.start b.count, f)
          (contents-push_full b (b.cap - 1) r v (omega (arith, v)) f)
    | inr f ↦ rw (length-window none b.cap b.ring b.start b.count, f) (contents-push_room b r v f)
  ],
)

drain_from-window :
    (b : FcBuffer) (i k : ℕ) → drain_from b i k ≡ window none b.cap b.ring (b.start + i) k
unfolding drain_from
drain_from-window b i zero = refl
drain_from-window b i (suc k) =
    ap (λ t. get_or b.ring ((b.start + i) % b.cap) no_slot ∷ t)
      (drain_from-window b (i + 1) k ∙ ap (λ h. window none b.cap b.ring h k) (omega arith))

-- Draining a valid buffer hands over all the records held, oldest first, and leaves a valid empty
-- buffer.
pub drain_lem :
    (b : FcBuffer)
    → IsValid b
    → ((drain b).0 ≡ contents b) × IsValid (drain b).1 × (contents (drain b).1 ≡ [])
unfolding drain
drain_lem b v = (
  drain_from-window b 0 b.count ∙ ap (λ h. window none b.cap b.ring h b.count) (omega arith),
  omega (arith, v),
  refl,
)
