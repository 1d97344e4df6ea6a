-- ===== src/Transport/Disruptor/Moves.antt =====
-- The steps of `enqueue` that claim a position and write the record.
use native.Mathlib.Nat.{mod-lt, add-mod_right}
use logger.Base.{
  ℕ, ◌+◌, ◌<◌, ◌≡◌, ◌≢◌, refl, sym, ap, ◌∙◌, inl, inr, Bool-cases, Option, some, ◌==◌, arith,
}
use logger.Record.{Record}
use logger.Transport.Disruptor.{Mpmc, slot, upd, Log, filling, publishing}
use logger.Transport.Disruptor.Cells.{
  Phase, free, writing, full, reading, Ghost, set_cell, upd_same, upd_other, CellOk, Cell, Core,
  PcOk,
}
use logger.Transport.Disruptor.Actions.{Moved, Frame-cell, as-Cell, cells_set, taken_after}

-- The log with one more claim.
abbrev pub claimed : Log → Record → Log
claimed l v = record l { ticket = upd l.ticket l.claims (some v); claims = l.claims + 1 }

module _ (q : Mpmc) (l : Log) (g : Ghost) where
  -- Another cell's position is not the one of this slot, nor one round before it.
  pub not_here : (i j r p : ℕ) → slot q p ≡ i → slot q r ≡ j → j ≢ i → r ≢ p
  not_here i j r p here there other e = other (sym there ∙ ap (slot q) e ∙ here)

  not_round : (i j r p : ℕ) → slot q p ≡ i → slot q r ≡ j → j ≢ i → r + (q.mask + 1) ≢ p
  not_round i j r p here there other e =
      other (sym there ∙ sym (add-mod_right r (q.mask + 1)) ∙ ap (slot q) e ∙ here)

  module _ (k : Core q l g) (t p : ℕ) where
    pub slot_lt : slot q p < q.mask + 1
    slot_lt = mod-lt p (omega arith)

    ticket_kept : (v : Record) (x : ℕ) → x < q.enq → (claimed l v).ticket x ≡ l.ticket x
    ticket_kept v x lt = upd_other l.ticket l.claims (some v) x (omega (arith, k.counted))

    claimed_written :
        (v : Record) (x : ℕ) → x < l.claims + 1 → (w : Record) × ((claimed l v).ticket x ≡ some w)
    claimed_written v x lt = elim (Bool-cases (x == l.claims)) [
      | inl e ↦ rw e (v, refl)
      | inr e ↦ let below : x < l.claims = ground arith in rw e (k.written x below)
    ]

    claim_other :
        (v : Record) (j r : ℕ) (ph : Phase)
        → Cell q l j r ph
        → r ≢ q.enq
        → r + (q.mask + 1) ≢ q.enq
        → Cell (record q { enq = q.enq + 1 }) (claimed l v) j r ph
    claim_other v j r ph c here round = record {
      own = c.own;
      before_taken = c.before_taken;
      after_unclaimed = omega (arith, c.after_unclaimed);
      ok = by_phase ph c.ok;
    }
      where
        by_phase :
            (ph : Phase)
            → CellOk q l j r ph
            → CellOk (record q { enq = q.enq + 1 }) (claimed l v) j r ph
        by_phase free ok = (ok.0, omega (arith, ok.1))
        by_phase (writing u) ok = (ok.0, ok.1, omega (arith, ok.2))
        by_phase full ok = (ok.0, ok.1, omega (arith, ok.2), ok.3 ∙ sym (ticket_kept v r ok.2))
        by_phase (reading u) ok = ok

    -- The compare-and-swap of `enqueue`.
    pub claiming-Moved :
        (v : Record)
        → g.phase (slot q p) ≡ free
        → g.round (slot q p) ≡ p
        → q.enq ≡ p
        → Moved q l g q.seq q.val
            (q.enq + 1)
            q.deq
            (claimed l v)
            (set_cell g (slot q p) p (writing t))
            t
            (filling v p)
    claiming-Moved v is at e =
        let i = slot q p in
        let c : Cell q l i p free = as-Cell q l g i p free k slot_lt is at in
        record {
          core = record {
            two = k.two;
            deq_le = omega (arith, k.deq_le);
            enq_le = omega (arith, c.before_taken);
            counted = omega (arith, k.counted);
            written = claimed_written v;
            cells =
                cells_set q l g _ _ i p (writing t)
                  (record {
                    own = refl;
                    before_taken = c.before_taken;
                    after_unclaimed = omega arith;
                    ok = (c.ok.0, omega (arith, k.deq_le), omega arith);
                  })
                  (λ j lt other.
                    let cj = k.cells j lt in
                    claim_other v j (g.round j) (g.phase j) cj
                      (λ x. not_here i j _ p refl cj.own other (x ∙ e))
                      (λ x. not_round i j _ p refl cj.own other (x ∙ e)));
            taken =
                taken_after q l g (record q { enq = q.enq + 1 }) (claimed l v) l.taken k.taken
                  (omega arith) (λ x lt. ticket_kept v x (omega (arith, k.deq_le)));
            apart = k.apart;
          };
          own = (
            upd_same g.phase i (writing t),
            upd_same g.round i p,
            omega arith,
            ap (λ x. upd l.ticket x (some v) p) (sym k.counted ∙ e) ∙ upd_same l.ticket p (some v),
          );
          frame =
              Frame-cell q l g q.seq q.val (q.enq + 1) q.deq (claimed l v) t i p free (writing t) is
                (omega arith) (omega arith) (inr (omega arith)) (inl (λ x. cc))
                (λ u o. (λ x. cc, λ x. cc)) (λ j other. refl) (ticket_kept v) (λ u j o lt ph h. h);
        }

    -- The store of the record into the cell.
    pub val_other :
        (x : Option Record) (j r : ℕ) (ph : Phase)
        → j ≢ slot q p
        → Cell q l j r ph
        → Cell (record q { val = upd q.val (slot q p) x }) l j r ph
    val_other x j r ph other c = record {
      own = c.own;
      before_taken = c.before_taken;
      after_unclaimed = c.after_unclaimed;
      ok = by_phase ph c.ok;
    }
      where
        by_phase :
            (ph : Phase)
            → CellOk q l j r ph
            → CellOk (record q { val = upd q.val (slot q p) x }) l j r ph
        by_phase free ok = ok
        by_phase (writing u) ok = ok
        by_phase full ok = (ok.0, ok.1, ok.2, upd_other q.val (slot q p) x j other ∙ ok.3)
        by_phase (reading u) ok = ok

    pub filling-Moved :
        (v : Record)
        → PcOk q l g t (filling v p)
        → Moved q l g q.seq
            (upd q.val (slot q p) (some v))
            q.enq
            q.deq
            l
            (set_cell g (slot q p) p (writing t))
            t
            (publishing v p)
    filling-Moved v h =
        let i = slot q p in
        let c : Cell q l i p (writing t) = as-Cell q l g i p (writing t) k slot_lt h.0 h.1 in
        record {
          core = record {
            two = k.two;
            deq_le = k.deq_le;
            enq_le = k.enq_le;
            counted = k.counted;
            written = k.written;
            cells =
                cells_set q l g _ _ i p (writing t)
                  (record {
                    own = c.own;
                    before_taken = c.before_taken;
                    after_unclaimed = c.after_unclaimed;
                    ok = c.ok;
                  })
                  (λ j lt other. val_other (some v) j _ _ other (k.cells j lt));
            taken = k.taken;
            apart = k.apart;
          };
          own = (
            upd_same g.phase i (writing t),
            upd_same g.round i p,
            h.2,
            h.3,
            upd_same q.val i (some v),
          );
          frame =
              Frame-cell q l g q.seq (upd q.val i (some v)) q.enq q.deq l t i p (writing t)
                (writing t) h.0 (omega arith) (omega arith) (inl (λ x. cc)) (inl (λ x. cc))
                (λ u o. (λ x. o cc, λ x. cc)) (λ j other. upd_other q.val i (some v) j other)
                (λ x lt. refl) (λ u j o lt ph a. a);
        }
