-- ===== src/Transport/Disruptor/Takes.antt =====
-- The steps of `dequeue` that take a position and the record behind it.
use logger.Base.{
  ℕ, ◌+◌, ◌<◌, ◌≡◌, ◌≢◌, refl, sym, subst, ap, ◌∙◌, inl, inr, Option, none, List, [], ◌∷◌, arith,
  All,
}
use logger.Record.{Record}
use logger.Transport.Disruptor.{Mpmc, slot, upd, Log, emptying, releasing}
use logger.Transport.Disruptor.Cells.{
  Phase, free, writing, full, reading, Ghost, set_cell, upd_same, upd_other, CellOk, Cell, NotIn,
  TakenOk, Core, PcOk,
}
use logger.Transport.Disruptor.Actions.{Moved, Frame-cell, as-Cell, cells_set, taken_after}
use logger.Transport.Disruptor.Moves.{not_here, slot_lt, val_other}

NotIn-below :
    (q : Mpmc) (l : Log) (xs : List (ℕ × Option Record)) → All (TakenOk q l) xs → NotIn q.deq xs
NotIn-below q l [] h = tt
NotIn-below q l (x ∷ xs) h = (omega (arith, h.0.0), NotIn-below q l xs h.1)

module _ (q : Mpmc) (l : Log) (g : Ghost) (k : Core q l g) (t p : ℕ) where
  take_other :
      (j r : ℕ) (ph : Phase)
      → Cell q l j r ph
      → r ≢ q.deq
      → Cell (record q { deq = q.deq + 1 }) l j r ph
  take_other j r ph c here = record {
    own = c.own;
    before_taken = omega (arith, c.before_taken);
    after_unclaimed = c.after_unclaimed;
    ok = by_phase ph c.ok;
  }
    where
      by_phase : (ph : Phase) → CellOk q l j r ph → CellOk (record q { deq = q.deq + 1 }) l j r ph
      by_phase free ok = ok
      by_phase (writing u) ok = (ok.0, omega (arith, ok.1), ok.2)
      by_phase full ok = (ok.0, omega (arith, ok.1), ok.2, ok.3)
      by_phase (reading u) ok = (ok.0, omega (arith, ok.1))

  -- The compare-and-swap of `dequeue`.
  pub taking-Moved :
      g.phase (slot q p) ≡ full
      → g.round (slot q p) ≡ p
      → q.deq ≡ p
      → Moved q l g q.seq q.val q.enq
          (q.deq + 1)
          l
          (set_cell g (slot q p) p (reading t))
          t
          (emptying p)
  taking-Moved is at e =
      let i = slot q p in
      let c : Cell q l i p full = as-Cell q l g i p full k (slot_lt q l g k t p) is at in
      record {
        core = record {
          two = k.two;
          deq_le = omega (arith, c.ok.2);
          enq_le = omega (arith, k.enq_le);
          counted = k.counted;
          written = k.written;
          cells =
              cells_set q l g _ _ i p (reading t)
                (record {
                  own = c.own;
                  before_taken = omega arith;
                  after_unclaimed = c.after_unclaimed;
                  ok = (c.ok.0, omega arith);
                })
                (λ j lt other.
                  let cj = k.cells j lt in
                  take_other j _ _ cj (λ x. not_here q l g i j _ p refl cj.own other (x ∙ e)));
          taken =
              taken_after q l g (record q { deq = q.deq + 1 }) l l.taken k.taken (omega arith)
                (λ x lt. refl);
          apart = k.apart;
        };
        own = (
          upd_same g.phase i (reading t),
          upd_same g.round i p,
          c.ok.2,
          c.ok.3,
          subst (λ x. NotIn x l.taken) e (NotIn-below q l l.taken k.taken),
        );
        frame =
            Frame-cell q l g q.seq q.val q.enq (q.deq + 1) l t i p full (reading t) is (omega arith)
              (omega arith) (inl (λ x. cc)) (inr (omega arith)) (λ u o. (λ x. cc, λ x. cc))
              (λ j other. refl) (λ x lt. refl) (λ u j o lt ph a. a);
      }

  -- Whatever the log says of what was taken, the cell is the same.
  log_other :
      (q' : Mpmc) (xs : List (ℕ × Option Record)) (j r : ℕ) (ph : Phase)
      → Cell q' l j r ph
      → Cell q' (record l { taken = xs }) j r ph
  log_other q' xs j r ph c = record {
    own = c.own;
    before_taken = c.before_taken;
    after_unclaimed = c.after_unclaimed;
    ok = by_phase ph c.ok;
  }
    where
      by_phase : (ph : Phase) → CellOk q' l j r ph → CellOk q' (record l { taken = xs }) j r ph
      by_phase free ok = ok
      by_phase (writing u) ok = ok
      by_phase full ok = ok
      by_phase (reading u) ok = ok

  -- A position that another thread is taking out.
  away :
      (u j : ℕ)
      → u ≢ t
      → j < q.mask + 1
      → g.phase (slot q p) ≡ reading t
      → g.phase j ≡ reading u
      → g.round j ≢ p
  away u j o lt mine theirs =
      not_here q l g (slot q p) j (g.round j) p refl (k.cells j lt).own
        (λ e. let same : reading u ≡ reading t = sym theirs ∙ ap g.phase e ∙ mine in o cc)

  -- The load of the record, with the cell cleared.
  pub emptying-Moved :
      PcOk q l g t (emptying p)
      → Moved q l g q.seq
          (upd q.val (slot q p) none)
          q.enq
          q.deq
          (record l { taken = (p, q.val (slot q p)) ∷ l.taken })
          (set_cell g (slot q p) p (reading t))
          t
          (releasing p (q.val (slot q p)))
  emptying-Moved h =
      let i = slot q p in
      let c : Cell q l i p (reading t) =
        as-Cell q l g i p (reading t) k (slot_lt q l g k t p) h.0 h.1 in
      record {
        core = record {
          two = k.two;
          deq_le = k.deq_le;
          enq_le = k.enq_le;
          counted = k.counted;
          written = k.written;
          cells =
              cells_set q l g _ _ i p (reading t)
                (record {
                  own = c.own;
                  before_taken = c.before_taken;
                  after_unclaimed = c.after_unclaimed;
                  ok = c.ok;
                })
                (λ j lt other.
                  log_other _ _ j _ _ (val_other q l g k t p none j _ _ other (k.cells j lt)));
          taken = ((c.ok.1, h.3), k.taken);
          apart = (h.4, k.apart);
        };
        own = (upd_same g.phase i (reading t), upd_same g.round i p);
        frame =
            Frame-cell q l g q.seq (upd q.val i none) q.enq q.deq
              (record l { taken = (p, q.val i) ∷ l.taken }) t i p (reading t) (reading t) h.0
              (omega arith) (omega arith) (inl (λ x. cc)) (inl (λ x. cc))
              (λ u o. (λ x. cc, λ x. o cc)) (λ j other. upd_other q.val i none j other)
              (λ x lt. refl) (λ u j o lt ph a. (away u j o lt h.0 ph, a));
      }
