-- ===== src/Transport/Disruptor/Publishes.antt =====
-- The last steps of `enqueue` and of `dequeue`, which store the number of a cell.
use native.Mathlib.Nat.{add-mod_right}
use logger.Base.{ℕ, ◌+◌, ◌≡◌, ◌≢◌, refl, sym, ◌∙◌, inl, true, Option, arith}
use logger.Record.{Record}
use logger.Transport.Disruptor.{Mpmc, slot, upd, Log, enqueued, dequeued, publishing, releasing}
use logger.Transport.Disruptor.Cells.{
  Phase, free, writing, full, reading, Ghost, set_cell, upd_same, upd_other, CellOk, Cell, Core,
  PcOk,
}
use logger.Transport.Disruptor.Actions.{Moved, Frame-cell, as-Cell, cells_set}
use logger.Transport.Disruptor.Moves.{slot_lt}

module _ (q : Mpmc) (l : Log) (g : Ghost) (k : Core q l g) (t p : ℕ) where
  seq_other :
      (x j r : ℕ) (ph : Phase)
      → j ≢ slot q p
      → Cell q l j r ph
      → Cell (record q { seq = upd q.seq (slot q p) x }) l j r ph
  seq_other x j r ph other c = record {
    own = c.own;
    before_taken = c.before_taken;
    after_unclaimed = c.after_unclaimed;
    ok = by_phase ph c.ok;
  }
    where
      same : upd q.seq (slot q p) x j ≡ q.seq j
      same = upd_other q.seq (slot q p) x j other

      by_phase :
          (ph : Phase)
          → CellOk q l j r ph
          → CellOk (record q { seq = upd q.seq (slot q p) x }) l j r ph
      by_phase free ok = (same ∙ ok.0, ok.1)
      by_phase (writing u) ok = (same ∙ ok.0, ok.1, ok.2)
      by_phase full ok = (same ∙ ok.0, ok.1, ok.2, ok.3)
      by_phase (reading u) ok = (same ∙ ok.0, ok.1)

  -- The store of the number that lets readers in.
  pub publishing-Moved :
      (v : Record)
      → PcOk q l g t (publishing v p)
      → Moved q l g
          (upd q.seq (slot q p) (p + 1))
          q.val
          q.enq
          q.deq
          l
          (set_cell g (slot q p) p full)
          t
          (enqueued true)
  publishing-Moved v h =
      let i = slot q p in
      let c : Cell q l i p (writing t) =
        as-Cell q l g i p (writing t) k (slot_lt q l g k t p) h.0 h.1 in
      record {
        core = record {
          two = k.two;
          deq_le = k.deq_le;
          enq_le = k.enq_le;
          counted = k.counted;
          written = k.written;
          cells =
              cells_set q l g _ _ i p full
                (record {
                  own = c.own;
                  before_taken = c.before_taken;
                  after_unclaimed = c.after_unclaimed;
                  ok = (upd_same q.seq i (p + 1), c.ok.1, c.ok.2, h.4 ∙ sym h.3);
                })
                (λ j lt other. seq_other (p + 1) j _ _ other (k.cells j lt));
          taken = k.taken;
          apart = k.apart;
        };
        own = tt;
        frame =
            Frame-cell q l g (upd q.seq i (p + 1)) q.val q.enq q.deq l t i p (writing t) full h.0
              (omega arith) (omega arith) (inl (λ x. cc)) (inl (λ x. cc))
              (λ u o. (λ x. o cc, λ x. cc)) (λ j other. refl) (λ x lt. refl) (λ u j o lt ph a. a);
      }

  -- The store of the number that lets the next round's writer in.
  pub releasing-Moved :
      (v : Option Record)
      → PcOk q l g t (releasing p v)
      → Moved q l g
          (upd q.seq (slot q p) (p + (q.mask + 1)))
          q.val
          q.enq
          q.deq
          l
          (set_cell g (slot q p) (p + (q.mask + 1)) free)
          t
          (dequeued v true)
  releasing-Moved v h =
      let i = slot q p in
      let n = p + (q.mask + 1) in
      let c : Cell q l i p (reading t) =
        as-Cell q l g i p (reading t) k (slot_lt q l g k t p) h.0 h.1 in
      record {
        core = record {
          two = k.two;
          deq_le = k.deq_le;
          enq_le = k.enq_le;
          counted = k.counted;
          written = k.written;
          cells =
              cells_set q l g _ _ i n free
                (record {
                  own = add-mod_right p (q.mask + 1);
                  before_taken = omega (arith, c.ok.1);
                  after_unclaimed = omega (arith, c.after_unclaimed);
                  ok = (upd_same q.seq i n, c.after_unclaimed);
                })
                (λ j lt other. seq_other n j _ _ other (k.cells j lt));
          taken = k.taken;
          apart = k.apart;
        };
        own = tt;
        frame =
            Frame-cell q l g (upd q.seq i n) q.val q.enq q.deq l t i n (reading t) free h.0
              (omega arith) (omega arith) (inl (λ x. cc)) (inl (λ x. cc))
              (λ u o. (λ x. cc, λ x. o cc)) (λ j other. refl) (λ x lt. refl) (λ u j o lt ph a. a);
      }
