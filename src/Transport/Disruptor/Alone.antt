-- ===== src/Transport/Disruptor/Alone.antt =====
-- What a call does that no other thread's call overlaps.
use logger.Base.{
  ℕ, zero, suc, ◌+◌, ◌^◌, ◌<◌, ◌≡◌, refl, ap, ◌∙◌, ◌⊎◌, inl, inr, true, Bool-cases, none,
  if◌then◌else◌, ltb, arith,
}
use logger.Record.{Record}
use logger.Transport.Disruptor.{
  Mpmc, upd, Log, System, Pc, enqueued, dequeued, entering, leaving, act, initial, is_done, moved,
  Reach,
}
use logger.Transport.Disruptor.Cells.{free, full, Ghost, upd_same, Core}
use logger.Transport.Disruptor.Delivery.{Far, Reach-Inv, start}
use logger.Transport.Disruptor.Solo.{
  run, unowned_all, room_seq, full_seq, first_seq, empty_seq, Returns, run_claims, run_full,
  run_takes, run_empty,
}

-- So many steps of the thread `t`, and none of another.
unfoldable pub alone : ℕ → ℕ → System → System
alone zero t s = s
alone (suc k) t s = alone k t (moved s t)

alone-run :
    (k t : ℕ) (s : System) (pc : Pc)
    → s.pc t ≡ pc
    → ((alone k t s).pc t ≡ (run k s.queue pc).1) × ((alone k t s).queue ≡ (run k s.queue pc).0)
unfolding alone run
alone-run zero t s pc e = (e, refl)
alone-run (suc k) t s pc e =
    let step : (moved s t).pc t ≡ (act s.queue pc).1 =
      upd_same s.pc t (act s.queue (s.pc t)).1 ∙ ap (λ x. (act s.queue x).1) e in
    let rest = alone-run k t (moved s t) (act s.queue pc).1 step in
    let same : (act s.queue (s.pc t)).0 ≡ (act s.queue pc).0 = ap (λ x. (act s.queue x).0) e in
    (
      rest.0 ∙ ap (λ q. (run k q (act s.queue pc).1).1) same,
      rest.1 ∙ ap (λ q. (run k q (act s.queue pc).1).0) same,
    )

module _ (q : Mpmc) (l : Log) (g : Ghost) (k : Core q l g)
    (rest : (i : ℕ) → (g.phase i ≡ free) ⊎ (g.phase i ≡ full))
    (far : l.claims + 1 + (q.mask + 1) < 2 ^ 63) where
  enqueue-Returns :
      (v : Record)
      → let room = ltb q.enq (q.deq + (q.mask + 1)) in
        Returns (run 5 q (entering v)) (enqueued room) (if room then q.enq + 1 else q.enq) q.deq
  enqueue-Returns v = elim (Bool-cases (ltb q.enq (q.deq + (q.mask + 1)))) [
    | inl e ↦
        let room : q.enq < q.deq + (q.mask + 1) = ground arith in
        rw e (run_claims q v (omega (arith, k.counted)) (room_seq q l g k rest room))
    | inr e ↦
        let none_left : q.enq ≡ q.deq + (q.mask + 1) = ground (arith, k.enq_le) in
        rw e (run_full q v (omega (arith, k.counted)) (full_seq q l g k rest none_left))
  ]

  dequeue-Returns :
      let waiting = ltb q.deq q.enq in
      Returns
        (run 5 q leaving)
        (dequeued (if waiting then l.ticket q.deq else none) waiting)
        q.enq
        (if waiting then q.deq + 1 else q.deq)
  dequeue-Returns = elim (Bool-cases (ltb q.deq q.enq)) [
    | inl e ↦
        let some_left : q.deq < q.enq = ground arith in
        let first = first_seq q l g k rest some_left in
        rw e (run_takes q _ (omega (arith, k.counted)) first.0 first.1)
    | inr e ↦
        let none_left : q.deq ≡ q.enq = ground (arith, k.deq_le) in
        rw e (run_empty q (omega (arith, k.counted)) (empty_seq q l g k rest none_left))
  ]

alone-Returns :
    (s : System) (t : ℕ) (pc result : Pc) (enq deq : ℕ)
    → s.pc t ≡ pc
    → Returns (run 5 s.queue pc) result enq deq
    → Returns ((alone 5 t s).queue, (alone 5 t s).pc t) result enq deq
alone-Returns s t pc result enq deq e r =
    let same = alone-run 5 t s pc e in
    (same.0 ∙ r.0, ap (λ q. q.enq) same.1 ∙ r.1, ap (λ q. q.deq) same.1 ∙ r.2)

-- Between the calls, whatever threads have called a new queue and however their steps interleaved,
-- the queue is a bounded queue. A call of enqueue whose five steps no other thread interrupts
-- returns true and moves the cursor of the writers on by one, if fewer positions are claimed and not
-- taken than there are cells, and else returns false and moves nothing; one of dequeue returns the
-- record of the first claim that is not taken and moves the cursor of the readers on by one, if
-- there is such a claim, and else returns that there is none and moves nothing. This is shown up to
-- 2^63 claims less the number of cells.
pub calls_alone :
    (size : ℕ) (s : System) (t : ℕ) (v : Record)
    → Reach (initial size) s
    → Far s
    → ((u : ℕ) → is_done (s.pc u) ≡ true)
    → let q = s.queue in
      let put = alone 5 t (record s { pc = upd s.pc t (entering v) }) in
      let got = alone 5 t (record s { pc = upd s.pc t leaving }) in
      let room = ltb q.enq (q.deq + (q.mask + 1)) in
      let waiting = ltb q.deq q.enq in
      (put.pc t ≡ enqueued room)
      × (put.queue.enq ≡ (if room then q.enq + 1 else q.enq))
      × (put.queue.deq ≡ q.deq)
      × (got.pc t ≡ dequeued (if waiting then s.log.ticket q.deq else none) waiting)
      × (got.queue.enq ≡ q.enq)
      × (got.queue.deq ≡ (if waiting then q.deq + 1 else q.deq))
calls_alone size s t v r far done =
    let i = Reach-Inv (start size) r far in
    let rest = unowned_all s i done in
    let put = enqueue-Returns s.queue s.log i.ghost i.core rest far v in
    let got = dequeue-Returns s.queue s.log i.ghost i.core rest far in
    let a =
      alone-Returns (record s { pc = upd s.pc t (entering v) }) t _ _ _ _
        (upd_same s.pc t (entering v)) put in
    let b =
      alone-Returns (record s { pc = upd s.pc t leaving }) t _ _ _ _ (upd_same s.pc t leaving)
        got in
    (a.0, a.1, a.2, b.0, b.1, b.2)
