-- ===== src/Transport/RingTransport/Queue.antt =====
-- The ring as a queue: its invariant, and what each operation does to the records that it holds.
use logger.Base.{
  ℕ, suc, ◌+◌, ◌-◌, ◌%◌, ◌≤◌, ◌<◌, ◌≡◌, sym, ap, ap₂, ◌∙◌, Option, none, some, List, [], ◌∷◌, ◌++◌,
  get_or, set, length, length-set, length-replicate, arith,
}
use native.Mathlib.Nat.{mod-lt, mod-eq_of_lt, mod-add-mod}
use logger.Ring.{window, window-mod, window-set_next, window-set_first}
use logger.Record.{Record}
use logger.Transport.{Policy}
use logger.Transport.RingTransport.{Ring, new_ring, store, advance}

pub record IsValid (t : Ring) : Type 0 where
  pub room : 0 < length t.buf
  pub head_in : t.head < length t.buf
  pub count_in : t.count ≤ length t.buf
  pub tail_at : t.tail ≡ (t.head + t.count) % length t.buf

-- The records in the ring, oldest first.
abbrev pub contents : Ring → List (Option Record)
contents t = window none (length t.buf) t.buf t.head t.count

abbrev pub no_slot : Option Record
no_slot = none

pub new_ring-IsValid : (n : ℕ) (p : Policy) → IsValid (new_ring n p)
unfolding new_ring
new_ring-IsValid n p = ground (arith, length-replicate n no_slot, length-replicate 1024 no_slot)

tail_after :
    (t : Ring) (n : ℕ)
    → IsValid t
    → n ≡ length t.buf
    → (t.tail + 1) % length t.buf ≡ (t.head + (t.count + 1)) % n
tail_after t n v e =
    ap (λ k. (k + 1) % length t.buf) v.tail_at
    ∙ mod-add-mod (t.head + t.count) (length t.buf) 1
    ∙ ap₂ (λ k m. k % m) {y = t.head + (t.count + 1)} (omega arith) (sym e)

-- Into a ring that is not full a record goes in behind the others.
pub store_lem :
    (t : Ring) (c : Record)
    → IsValid t
    → t.count < length t.buf
    → IsValid (store t c) × (contents (store t c) ≡ contents t ++ (some c ∷ []))
unfolding store
store_lem t c v h =
    let sized = length-set t.buf t.tail (some c) in
    let cap = length t.buf in
    let more : t.count + 1 ≡ suc t.count = omega arith in
    (
      record {
        room = omega (arith, sized, v);
        head_in = omega (arith, sized, v);
        count_in = omega (arith, sized);
        tail_at = tail_after t _ v sized;
      },
      ap₂ (λ n k. window none n (set t.buf t.tail (some c)) t.head k) sized more
          ∙ ap (λ i. window none cap (set t.buf i (some c)) t.head (suc t.count)) v.tail_at
          ∙ window-set_next none cap t.buf (some c) t.head t.count (omega arith) h,
    )

-- Out of a ring that is not empty comes the oldest record.
pub advance_lem :
    (t : Ring)
    → IsValid t
    → 0 < t.count
    → IsValid (advance t) × (contents t ≡ get_or t.buf t.head no_slot ∷ contents (advance t))
unfolding advance
advance_lem t v h =
    let sized = length-set t.buf t.head no_slot in
    let cap = length t.buf in
    let at_head = mod-eq_of_lt v.head_in in
    let less : t.count ≡ suc (t.count - 1) = omega arith in
    let around : (t.head + 1) % cap < cap = mod-lt (t.head + 1) v.room in
    (
      record {
        room = omega (arith, sized, v);
        head_in = omega (arith, sized, around);
        count_in = omega (arith, sized, v);
        tail_at =
            v.tail_at
            ∙ ap (λ k. k % cap) {y = t.head + 1 + (t.count - 1)} (omega arith)
            ∙ sym (mod-add-mod (t.head + 1) cap (t.count - 1))
            ∙ ap (λ n. ((t.head + 1) % cap + (t.count - 1)) % n) (sym sized);
      },
      ap (window none cap t.buf t.head) less
          ∙ ap₂ ◌∷◌ (ap (λ i. get_or t.buf i no_slot) at_head) (
              sym (window-set_first none cap t.buf no_slot t.head (t.count - 1) (omega (arith, v)))
              ∙ ap (λ i. window none cap (set t.buf i no_slot) (t.head + 1) (t.count - 1)) at_head
              ∙ sym (window-mod none cap (set t.buf t.head no_slot) (t.head + 1) (t.count - 1))
              ∙ ap
                  (λ n. window none n (set t.buf t.head no_slot) ((t.head + 1) % cap) (t.count - 1))
                  (sym sized)),
    )
