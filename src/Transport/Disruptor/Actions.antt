-- ===== src/Transport/Disruptor/Actions.antt =====
-- What each step of `enqueue` and `dequeue` does to the cells.
use native.Mathlib.Nat.{mod-lt}
use logger.Base.{
  ℕ, ◌+◌, ◌%◌, ◌^◌, ◌<◌, ◌≤◌, ◌≡◌, ◌≢◌, refl, sym, subst, ap, ◌∙◌, ◌⊎◌, inl, inr, true, Bool-cases,
  Option, List, [], ◌∷◌, ◌==◌, arith, pos, eq_ℤ, All,
}
use logger.Ring.{add-mod-ne}
use logger.Record.{Record}
use logger.Transport.Disruptor.{Mpmc, slot, upd, dif, Log, Pc, claiming, taking}
use logger.Transport.Disruptor.Cells.{
  Phase, free, writing, full, reading, Ghost, set_cell, upd_other, dif-zero, Cell, NotIn, TakenOk,
  Core, PcOk, after, Frame,
}

-- The counters are far from wrapping around.
abbrev pub Small : Mpmc → Type 0
Small q = q.enq + (q.mask + 1) < 2 ^ 63

module _ (q : Mpmc) (l : Log) (g : Ghost) where
  next_slot : (p i r : ℕ) → 1 ≤ q.mask → slot q p ≡ i → slot q r ≡ i → r ≢ p + 1
  next_slot p i r two own other e =
      add-mod-ne (q.mask + 1) p 1 (omega arith) (omega arith)
        (sym (ap (slot q) e) ∙ other ∙ sym own)

  Cell-free :
      (i r p : ℕ) (ph : Phase)
      → Core q l g
      → Cell q l i r ph
      → slot q p ≡ i
      → q.seq i ≡ p
      → q.enq ≡ p
      → (ph ≡ free) × (r ≡ p)
  Cell-free i r p free k c own s e = (refl, sym c.ok.0 ∙ s)
  Cell-free i r p (writing t) k c own s e = absurd (omega (arith, c.ok.0, c.ok.2))
  Cell-free i r p full k c own s e = absurd (next_slot r i p k.two c.own own (sym s ∙ c.ok.0))
  Cell-free i r p (reading t) k c own s e =
      absurd (next_slot r i p k.two c.own own (sym s ∙ c.ok.0))

  Cell-full :
      (i r p : ℕ) (ph : Phase)
      → Core q l g
      → Cell q l i r ph
      → slot q p ≡ i
      → q.seq i ≡ p + 1
      → q.deq ≡ p
      → (ph ≡ full) × (r ≡ p)
  Cell-full i r p free k c own s e = absurd (next_slot p i r k.two own c.own (sym c.ok.0 ∙ s))
  Cell-full i r p (writing t) k c own s e =
      absurd (next_slot p i r k.two own c.own (sym c.ok.0 ∙ s))
  Cell-full i r p full k c own s e = (refl, omega (arith, c.ok.0))
  Cell-full i r p (reading t) k c own s e = absurd (omega (arith, c.ok.0, c.ok.1))

  seq-Small : (i r : ℕ) (ph : Phase) → Small q → Core q l g → Cell q l i r ph → q.seq i < 2 ^ 63
  seq-Small i r free h k c = omega (arith, c.ok.0, c.before_taken, k.deq_le)
  seq-Small i r (writing t) h k c = omega (arith, c.ok.0, c.before_taken, k.deq_le)
  seq-Small i r full h k c = omega (arith, c.ok.0, c.ok.2, k.deq_le)
  seq-Small i r (reading t) h k c = omega (arith, c.ok.0, c.ok.1, k.deq_le)

  slot_lt : (p : ℕ) → slot q p < q.mask + 1
  slot_lt p = mod-lt p (omega arith)

  module _ (small : Small q) (k : Core q l g) where
    Cell-at : (p : ℕ) → Cell q l (slot q p) (g.round (slot q p)) (g.phase (slot q p))
    Cell-at p = k.cells (slot q p) (slot_lt p)

    -- A thread that finds the number of its position goes on to claim it.
    pub enqueuing-claiming :
        (t p : ℕ) (v : Record)
        → p ≤ q.enq
        → eq_ℤ (dif (q.seq (slot q p)) p) (pos 0) ≡ true
        → PcOk q l g t (claiming v p)
    enqueuing-claiming t p v le e =
        let s : q.seq (slot q p) ≡ p =
          dif-zero _ p (seq-Small _ _ _ small k (Cell-at p)) (omega arith) e in
        (le, λ at. Cell-free _ _ p _ k (Cell-at p) refl s at)

    pub dequeuing-taking :
        (t p : ℕ)
        → p ≤ q.deq
        → eq_ℤ (dif (q.seq (slot q p)) ((p + 1) % 2 ^ 64)) (pos 0) ≡ true
        → PcOk q l g t (taking p)
    dequeuing-taking t p le e =
        let below : p + 1 < 2 ^ 63 = omega (arith, k.deq_le) in
        let whole : (p + 1) % 2 ^ 64 ≡ p + 1 = omega arith in
        let s : q.seq (slot q p) ≡ p + 1 =
          dif-zero _ _ (seq-Small _ _ _ small k (Cell-at p)) below
            (ap (λ z. eq_ℤ (dif (q.seq (slot q p)) z) (pos 0)) (sym whole) ∙ e) in
        (le, λ at. Cell-full _ _ p _ k (Cell-at p) refl s at)

-- A step that brings the thread `t` to `pc`.
pub record Moved (q : Mpmc) (l : Log) (g : Ghost) (seq' : ℕ → ℕ) (val' : ℕ → Option Record)
    (enq' deq' : ℕ) (l' : Log) (g' : Ghost) (t : ℕ) (pc : Pc) : Type 0 where
  pub core : Core (after q l g seq' val' enq' deq' l' g') l' g'
  pub own : PcOk (after q l g seq' val' enq' deq' l' g') l' g' t pc
  pub frame : Frame q l g seq' val' enq' deq' l' g' t

module _ (q : Mpmc) (l : Log) (g : Ghost) where
  -- A step changes at most the cell `i`, which was at `old`.
  module _ (seq' : ℕ → ℕ) (val' : ℕ → Option Record) (enq' deq' : ℕ) (l' : Log) (t i r : ℕ)
      (old new : Phase) (at : g.phase i ≡ old) where
    elsewhere : (j : ℕ) (ph : Phase) → g.phase j ≡ ph → old ≢ ph → j ≢ i
    elsewhere j ph is other e = other (sym at ∙ ap g.phase (sym e) ∙ is)

    kept :
        (j : ℕ) (ph : Phase)
        → g.phase j ≡ ph
        → old ≢ ph
        → (upd g.phase i new j ≡ ph) × (upd g.round i r j ≡ g.round j)
    kept j ph is other =
        let off = elsewhere j ph is other in
        (upd_other g.phase i new j off ∙ is, upd_other g.round i r j off)

    pub Frame-cell :
        q.enq ≤ enq'
        → q.deq ≤ deq'
        → (old ≢ free) ⊎ (enq' ≢ q.enq)
        → (old ≢ full) ⊎ (deq' ≢ q.deq)
        → ((u : ℕ) → u ≢ t → (old ≢ writing u) × (old ≢ reading u))
        → ((j : ℕ) → j ≢ i → val' j ≡ q.val j)
        → ((p : ℕ) → p < q.enq → l'.ticket p ≡ l.ticket p)
        → ((u j : ℕ)
            → u ≢ t
            → j < q.mask + 1
            → g.phase j ≡ reading u
            → NotIn (g.round j) l.taken
            → NotIn (g.round j) l'.taken)
        → Frame q l g seq' val' enq' deq' l' (set_cell g i r new) t
    Frame-cell enq_up deq_up frees fulls owners vals tickets untaken = record {
      enq_up = enq_up;
      deq_up = deq_up;
      frees =
          λ j e is. elim frees [ inl other ↦ kept j free is other | inr moved ↦ absurd (moved e) ];
      fulls =
          λ j e is. elim fulls [ inl other ↦ kept j full is other | inr moved ↦ absurd (moved e) ];
      writes = λ u j o is.
          let other = (owners u o).0 in
          let k = kept j (writing u) is other in
          (k.0, k.1, vals j (elsewhere j (writing u) is other));
      reads = λ u j o is.
          let other = (owners u o).1 in
          let k = kept j (reading u) is other in
          (k.0, k.1, vals j (elsewhere j (reading u) is other));
      tickets = tickets;
      untaken = untaken;
    }

  pub as-Cell :
      (i r : ℕ) (ph : Phase)
      → Core q l g
      → i < q.mask + 1
      → g.phase i ≡ ph
      → g.round i ≡ r
      → Cell q l i r ph
  as-Cell i r ph k lt is at =
      subst (Cell q l i r) is (subst (λ z. Cell q l i z (g.phase i)) at (k.cells i lt))

  pub cells_set :
      (q' : Mpmc) (l' : Log) (i r : ℕ) (ph : Phase)
      → Cell q' l' i r ph
      → ((j : ℕ) → j < q.mask + 1 → j ≢ i → Cell q' l' j (g.round j) (g.phase j))
      → (j : ℕ) → j < q.mask + 1
      → Cell q' l' j (upd g.round i r j) (upd g.phase i ph j)
  cells_set q' l' i r ph here others j lt = elim (Bool-cases (j == i)) [
    | inl e ↦
        let same : j ≡ i = ground arith in rw e (subst (λ z. Cell q' l' z r ph) (sym same) here)
    | inr e ↦ let other : j ≢ i = ground arith in rw e (others j lt other)
  ]

  pub taken_after :
      (q' : Mpmc) (l' : Log) (xs : List (ℕ × Option Record))
      → All (TakenOk q l) xs
      → q.deq ≤ q'.deq
      → ((p : ℕ) → p < q.deq → l'.ticket p ≡ l.ticket p)
      → All (TakenOk q' l') xs
  taken_after q' l' [] h le same = tt
  taken_after q' l' (x ∷ xs) h le same =
      ((omega (arith, h.0.0, le), h.0.1 ∙ sym (same x.0 h.0.0)), taken_after q' l' xs h.1 le same)
