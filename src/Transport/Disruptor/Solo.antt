-- ===== src/Transport/Disruptor/Solo.antt =====
-- One call on a queue that no other thread is at: what it finds in the cells, and what it returns.
use native.Mathlib.Nat.{mod-lt, add-mod_right}
use logger.Base.{
  ℕ, zero, suc, ◌+◌, ◌-◌, ◌%◌, ◌^◌, ◌<◌, ◌≤◌, ◌≡◌, ◌≢◌, refl, sym, subst, ap, ◌∙◌, ◌⊎◌, inl, inr,
  true, false, Bool-cases, Option, none, some, ltb, ◌==◌, arith, pos, ltb_ℤ, eq_ℤ, to_i64, to_u64,
}
use logger.Ring.{add-mod-ne}
use logger.Record.{Record}
use logger.Transport.Disruptor.{
  Mpmc, System, is_done, slot, dif, Log, Pc, enqueued, dequeued, entering, enqueuing, claiming,
  leaving, dequeuing, taking, act,
}
use logger.Transport.Disruptor.Cells.{Phase, free, writing, full, reading, Ghost, Cell, Core}
use logger.Transport.Disruptor.Owners.{owner}
use logger.Transport.Disruptor.Delivery.{Inv, done_at}

unfoldable pub run : ℕ → Mpmc → Pc → Mpmc × Pc
run zero q pc = (q, pc)
run (suc k) q pc = run k (act q pc).0 (act q pc).1

same_round : (n p r : ℕ) → r % n ≡ p % n → p ≤ r → r < p + n → r ≡ p
same_round n p r e le lt = elim (Bool-cases (ltb p r)) [
  | inl later ↦
      let ahead : r ≡ p + (r - p) = ground arith in
      absurd
        (add-mod-ne n p (r - p) (ground arith) (ground arith) (ap (λ x. x % n) (sym ahead) ∙ e))
  | inr not_later ↦ ground arith
]

dif_same : (a : ℕ) → a < 2 ^ 63 → eq_ℤ (dif a a) (pos 0) ≡ true
unfolding dif to_i64 to_u64
dif_same a h = ground arith

dif_less :
    (a b : ℕ)
    → a < b
    → b < 2 ^ 63
    → (eq_ℤ (dif a b) (pos 0) ≡ false) × (ltb_ℤ (dif a b) (pos 0) ≡ true)
unfolding dif to_i64 to_u64
dif_less a b h k = ground arith

-- No thread is at a cell: it waits for a writer or for a reader.
unowned : (ph : Phase) → ((u : ℕ) → owner ph ≢ some u) → (ph ≡ free) ⊎ (ph ≡ full)
unowned free h = inl refl
unowned (writing u) h = absurd (h u refl)
unowned full h = inr refl
unowned (reading u) h = absurd (h u refl)

pub unowned_all :
    (s : System) (i : Inv s)
    → ((t : ℕ) → is_done (s.pc t) ≡ true)
    → (c : ℕ) → (i.ghost.phase c ≡ free) ⊎ (i.ghost.phase c ≡ full)
unowned_all s i done c = unowned (i.ghost.phase c) (λ u e.
    let none_here : none ≡ some c = sym (done_at s.queue (s.pc u) (done u)) ∙ i.owned c u e in cc)

module _ (q : Mpmc) (l : Log) (g : Ghost) (k : Core q l g)
    (rest : (i : ℕ) → (g.phase i ≡ free) ⊎ (g.phase i ≡ full)) where
  at_slot :
      (p : ℕ) (ph : Phase) → g.phase (slot q p) ≡ ph → Cell q l (slot q p) (g.round (slot q p)) ph
  at_slot p ph e =
      subst (Cell q l (slot q p) (g.round (slot q p))) e
        (k.cells (slot q p) (mod-lt p (omega arith)))

  next_round :
      (r : ℕ)
      → r % (q.mask + 1) ≡ slot q q.enq
      → r < q.enq
      → q.enq ≤ r + (q.mask + 1)
      → r + (q.mask + 1) ≡ q.enq
  next_round r own lt le =
      same_round (q.mask + 1) q.enq (r + (q.mask + 1)) (add-mod_right r (q.mask + 1) ∙ own) le
        (omega arith)

  pub room_seq : q.enq < q.deq + (q.mask + 1) → q.seq (slot q q.enq) ≡ q.enq
  room_seq room = elim (rest (slot q q.enq)) [
    | inl is ↦
        let c = at_slot q.enq free is in
        c.ok.0
        ∙ same_round (q.mask + 1) q.enq _ c.own c.ok.1 (omega (arith, c.before_taken, k.deq_le))
    | inr is ↦
        let c = at_slot q.enq full is in
        let again = next_round _ c.own c.ok.2 c.after_unclaimed in
        absurd (omega (arith, again, c.ok.1))
  ]

  pub full_seq : q.enq ≡ q.deq + (q.mask + 1) → q.seq (slot q q.enq) < q.enq
  full_seq none_left = elim (rest (slot q q.enq)) [
    | inl is ↦ let c = at_slot q.enq free is in absurd (omega (arith, c.ok.1, c.before_taken))
    | inr is ↦
        let c = at_slot q.enq full is in
        let again = next_round _ c.own c.ok.2 c.after_unclaimed in
        omega (arith, again, c.ok.0, k.two)
  ]

  -- Each position between the cursors has its record in its cell.
  pub held_seq :
      (p : ℕ) → q.deq ≤ p → p < q.enq → (q.seq (slot q p) ≡ p + 1) × (q.val (slot q p) ≡ l.ticket p)
  held_seq p low high = elim (rest (slot q p)) [
    | inl is ↦
        let c = at_slot p free is in
        let same =
          same_round (q.mask + 1) p _ c.own (omega (arith, c.ok.1))
            (omega (arith, c.before_taken)) in
        absurd (omega (arith, same, c.ok.1))
    | inr is ↦
        let c = at_slot p full is in
        let same : g.round (slot q p) ≡ p = elim (Bool-cases (ltb (g.round (slot q p)) p)) [
          | inl less ↦ sym (
              same_round (q.mask + 1) (g.round (slot q p)) p (sym c.own) (ground arith)
                (omega (arith, c.ok.1, k.enq_le)))
          | inr not_less ↦
              same_round (q.mask + 1) p (g.round (slot q p)) c.own (ground arith)
                (omega (arith, c.before_taken))
        ] in
        (omega (arith, same, c.ok.0), c.ok.3 ∙ ap l.ticket same)
  ]

  pub first_seq :
      q.deq < q.enq → (q.seq (slot q q.deq) ≡ q.deq + 1) × (q.val (slot q q.deq) ≡ l.ticket q.deq)
  first_seq some_left = held_seq q.deq (omega arith) some_left

  pub empty_seq : q.deq ≡ q.enq → q.seq (slot q q.deq) < q.deq + 1
  empty_seq none_left = elim (rest (slot q q.deq)) [
    | inl is ↦
        let c = at_slot q.deq free is in
        let same = same_round (q.mask + 1) q.deq _ c.own (omega (arith, c.ok.1)) c.before_taken in
        omega (arith, same, c.ok.0)
    | inr is ↦ let c = at_slot q.deq full is in absurd (omega (arith, c.ok.1, c.ok.2))
  ]

-- What a call returns, and the cursors behind it.
abbrev pub Returns : Mpmc × Pc → Pc → ℕ → ℕ → Type 0
Returns (q, pc) result enq deq = (pc ≡ result) × (q.enq ≡ enq) × (q.deq ≡ deq)

-- The step at the switch of the loop, by what is found in the cell.
module _ (q : Mpmc) (p : ℕ) where
  enqueue_looks :
      (v : Record) → q.seq (slot q p) ≡ p → p < 2 ^ 63 → act q (enqueuing v p) ≡ (q, claiming v p)
  unfolding act
  enqueue_looks v e h =
      let is : eq_ℤ (dif (q.seq (slot q p)) p) (pos 0) ≡ true =
        ap (λ x. eq_ℤ (dif x p) (pos 0)) e ∙ dif_same p h in
      rw is refl

  enqueue_gives_up :
      (v : Record) → q.seq (slot q p) < p → p < 2 ^ 63 → act q (enqueuing v p) ≡ (q, enqueued false)
  unfolding act
  enqueue_gives_up v lt h =
      let less = dif_less (q.seq (slot q p)) p lt h in rw (less.0, less.1) refl

  dequeue_looks : q.seq (slot q p) ≡ p + 1 → p + 1 < 2 ^ 63 → act q (dequeuing p) ≡ (q, taking p)
  unfolding act
  dequeue_looks e h =
      let whole : (p + 1) % 2 ^ 64 ≡ p + 1 = omega arith in
      let is : eq_ℤ (dif (q.seq (slot q p)) ((p + 1) % 2 ^ 64)) (pos 0) ≡ true =
        ap (λ x. eq_ℤ (dif (q.seq (slot q p)) x) (pos 0)) whole
        ∙ ap (λ x. eq_ℤ (dif x (p + 1)) (pos 0)) e
        ∙ dif_same (p + 1) h in
      rw is refl

  dequeue_gives_up :
      q.seq (slot q p) < p + 1 → p + 1 < 2 ^ 63 → act q (dequeuing p) ≡ (q, dequeued none false)
  unfolding act
  dequeue_gives_up lt h =
      let whole : p + 1 ≡ (p + 1) % 2 ^ 64 = omega arith in
      let less =
        subst
          (λ x.
            (eq_ℤ (dif (q.seq (slot q p)) x) (pos 0) ≡ false)
            × (ltb_ℤ (dif (q.seq (slot q p)) x) (pos 0) ≡ true))
          whole (dif_less (q.seq (slot q p)) (p + 1) lt h) in
      rw (less.0, less.1) refl

module _ (q : Mpmc) where
  pub run_claims :
      (v : Record)
      → q.enq + 1 < 2 ^ 63
      → q.seq (slot q q.enq) ≡ q.enq
      → Returns (run 5 q (entering v)) (enqueued true) (q.enq + 1) q.deq
  unfolding run act
  run_claims v h e =
      let looks = enqueue_looks q q.enq v e (omega arith) in
      let on : (q.enq == q.enq) ≡ true = ground arith in
      subst (λ x. Returns (run 3 x.0 x.1) (enqueued true) (q.enq + 1) q.deq) (sym looks)
        (rw on (refl, omega arith, refl))

  pub run_full :
      (v : Record)
      → q.enq < 2 ^ 63
      → q.seq (slot q q.enq) < q.enq
      → Returns (run 5 q (entering v)) (enqueued false) q.enq q.deq
  unfolding run act
  run_full v h lt =
      subst (λ x. Returns (run 3 x.0 x.1) (enqueued false) q.enq q.deq)
        (sym (enqueue_gives_up q q.enq v lt h)) ((refl, refl, refl))

  pub run_takes :
      (x : Option Record)
      → q.deq + 1 < 2 ^ 63
      → q.seq (slot q q.deq) ≡ q.deq + 1
      → q.val (slot q q.deq) ≡ x
      → Returns (run 5 q leaving) (dequeued x true) q.enq (q.deq + 1)
  unfolding run act
  run_takes x h e is =
      let on : (q.deq == q.deq) ≡ true = ground arith in
      subst (λ y. Returns (run 3 y.0 y.1) (dequeued x true) q.enq (q.deq + 1))
        (sym (dequeue_looks q q.deq e h)) (rw on (ap (λ y. dequeued y true) is, refl, omega arith))

  pub run_empty :
      q.deq + 1 < 2 ^ 63
      → q.seq (slot q q.deq) < q.deq + 1
      → Returns (run 5 q leaving) (dequeued none false) q.enq q.deq
  unfolding run act
  run_empty h lt =
      subst (λ x. Returns (run 3 x.0 x.1) (dequeued none false) q.enq q.deq)
        (sym (dequeue_gives_up q q.deq lt h)) ((refl, refl, refl))
