-- ===== src/Transport/Disruptor/Acts.antt =====
-- What any step of a thread leaves, by what it was at.
use native.Mathlib.Nat.{mod-lt}
use logger.Base.{
  ℕ, ◌+◌, ◌%◌, ◌^◌, ◌<◌, ◌≡◌, ◌≢◌, subst, inl, inr, true, false, Bool-cases, Option, none, ◌==◌,
  arith, ℤ, pos, ltb_ℤ, eq_ℤ, refl, some, ◌⊎◌,
}
use logger.Record.{Record}
use logger.Transport.Disruptor.Owners.{owner, at_cell, Owned, stays-Owned, set-Owned}
use logger.Transport.Disruptor.{
  Mpmc, slot, upd, dif, Log, Pc, idle, enqueued, dequeued, entering, enqueuing, claiming, filling,
  publishing, leaving, dequeuing, taking, emptying, releasing,
}
use logger.Transport.Disruptor.Cells.{
  reading, Ghost, Core, PcOk, after, Phase, free, writing, full, set_cell,
}
use logger.Transport.Disruptor.Actions.{Moved, as-Cell}
use logger.Transport.Disruptor.{look, act, logged}
use logger.Transport.Disruptor.Cells.{PcOk-frame}
use logger.Transport.Disruptor.Actions.{enqueuing-claiming, dequeuing-taking}
use logger.Transport.Disruptor.Moves.{claimed, claiming-Moved, filling-Moved}
use logger.Transport.Disruptor.Publishes.{publishing-Moved, releasing-Moved}
use logger.Transport.Disruptor.Takes.{taking-Moved, emptying-Moved}

-- What a step of the thread `t` leaves.
pub record Acted (q : Mpmc) (l : Log) (g : Ghost) (t : ℕ) (pc : Pc) (q' : Mpmc) (l' : Log)
    (pc' : Pc) : Type 0 where
  pub ghost : Ghost
  pub core : Core q' l' ghost
  pub own : PcOk q' l' ghost t pc'
  pub others : (u : ℕ) (pc : Pc) → u ≢ t → PcOk q l g u pc → PcOk q' l' ghost u pc
  pub owned : Owned q q' g ghost t pc pc'

module _ (q : Mpmc) (l : Log) (g : Ghost) (t : ℕ) (k : Core q l g) where
  Moved-Acted :
      (seq' : ℕ → ℕ) (val' : ℕ → Option Record) (enq' deq' : ℕ) (l' : Log) (i r : ℕ) (new : Phase)
      (pc pc' : Pc)
      → (at_cell q pc ≡ none) ⊎ (at_cell q pc ≡ some i)
      → (owner new ≡ none) ⊎ ((owner new ≡ some t) × (at_cell q pc' ≡ some i))
      → Moved q l g seq' val' enq' deq' l' (set_cell g i r new) t pc'
      → Acted q l g t pc (after q l g seq' val' enq' deq' l' (set_cell g i r new)) l' pc'
  Moved-Acted seq' val' enq' deq' l' i r new pc pc' was is m = record {
    ghost = set_cell g i r new;
    core = m.core;
    own = m.own;
    others =
        λ u p o h. PcOk-frame q l g seq' val' enq' deq' l' (set_cell g i r new) t u p o m.frame h;
    owned =
        set-Owned q (after q l g seq' val' enq' deq' l' (set_cell g i r new)) g t pc pc' i r new was
          is;
  }

  stays : (pc pc' : Pc) → at_cell q pc ≡ none → PcOk q l g t pc' → Acted q l g t pc q l pc'
  stays pc pc' away h = record {
    ghost = g;
    core = k;
    own = h;
    others = λ u p o x. x;
    owned = stays-Owned q q g t pc pc' away;
  }

  looks :
      (pc : Pc) (d : ℤ) (same less more : Pc)
      → at_cell q pc ≡ none
      → (eq_ℤ d (pos 0) ≡ true → PcOk q l g t same)
      → PcOk q l g t less
      → PcOk q l g t more
      → Acted q l g t pc q l (look d same less more)
  looks pc d same less more away h0 h1 h2 = elim (Bool-cases (eq_ℤ d (pos 0))) [
    | inl e ↦ rw e (stays pc same away (h0 e))
    | inr e ↦ rw e (elim (Bool-cases (ltb_ℤ d (pos 0))) [
      | inl e' ↦ rw e' (stays pc less away h1)
      | inr e' ↦ rw e' (stays pc more away h2)
    ])
  ]

  pub act-Acted :
      (pc : Pc)
      → l.claims + 1 + (q.mask + 1) < 2 ^ 63
      → PcOk q l g t pc
      → Acted q l g t pc (act q pc).0 (logged q pc l) (act q pc).1
  unfolding act logged
  act-Acted idle b h = stays idle idle refl h
  act-Acted (enqueued x) b h = stays (enqueued x) (enqueued x) refl h
  act-Acted (dequeued v x) b h = stays (dequeued v x) (dequeued v x) refl h
  act-Acted (entering v) b h = stays (entering v) (enqueuing v q.enq) refl (omega arith)
  act-Acted (enqueuing v p) b h =
      looks (enqueuing v p) (dif (q.seq (slot q p)) p) (claiming v p) (enqueued false) (entering v)
        refl (λ e. enqueuing-claiming q l g (omega (arith, k.counted)) k t p v h e) tt tt
  act-Acted (claiming v p) b h = elim (Bool-cases (q.enq == p)) [
    | inl e ↦
        let at : q.enq ≡ p = ground arith in
        let whole : q.enq + 1 ≡ (p + 1) % 2 ^ 64 = omega (arith, k.counted) in
        let m = claiming-Moved q l g k t p v (h.1 at).0 (h.1 at).1 at in
        rw e (
          subst
            (λ x. Acted q l g t (claiming v p) (record q { enq = x }) (claimed l v) (filling v p))
            whole
            (Moved-Acted _ _ _ _ _ (slot q p) p (writing t) (claiming v p) (filling v p) (inl refl)
              (inr (refl, refl)) m))
    | inr e ↦ rw e (stays (claiming v p) (enqueuing v p) refl h.0)
  ]
  act-Acted (filling v p) b h =
      Moved-Acted _ _ _ _ _ (slot q p) p (writing t) (filling v p) (publishing v p) (inr refl)
        (inr (refl, refl)) (filling-Moved q l g k t p v h)
  act-Acted (publishing v p) b h =
      let whole : p + 1 ≡ (p + 1) % 2 ^ 64 = omega (arith, k.counted, h.2) in
      subst
        (λ x.
          Acted q l g t (publishing v p) (record q { seq = upd q.seq (slot q p) x }) l
            (enqueued true))
        whole
        (Moved-Acted _ _ _ _ _ (slot q p) p full (publishing v p) (enqueued true) (inr refl)
          (inl refl) (publishing-Moved q l g k t p v h))
  act-Acted leaving b h = stays leaving (dequeuing q.deq) refl (omega arith)
  act-Acted (dequeuing p) b h =
      looks (dequeuing p) (dif (q.seq (slot q p)) ((p + 1) % 2 ^ 64)) (taking p)
        (dequeued none false) leaving refl
        (λ e. dequeuing-taking q l g (omega (arith, k.counted)) k t p h e) tt tt
  act-Acted (taking p) b h = elim (Bool-cases (q.deq == p)) [
    | inl e ↦
        let at : q.deq ≡ p = ground arith in
        let whole : q.deq + 1 ≡ (p + 1) % 2 ^ 64 = omega (arith, k.counted, k.deq_le) in
        let m = taking-Moved q l g k t p (h.1 at).0 (h.1 at).1 at in
        rw e (
          subst (λ x. Acted q l g t (taking p) (record q { deq = x }) l (emptying p)) whole
            (Moved-Acted _ _ _ _ _ (slot q p) p (reading t) (taking p) (emptying p) (inl refl)
              (inr (refl, refl)) m))
    | inr e ↦ rw e (stays (taking p) (dequeuing p) refl h.0)
  ]
  act-Acted (emptying p) b h =
      Moved-Acted _ _ _ _ _ (slot q p) p (reading t) (emptying p) (releasing p (q.val (slot q p)))
        (inr refl) (inr (refl, refl)) (emptying-Moved q l g k t p h)
  act-Acted (releasing p v) b h =
      let c = as-Cell q l g (slot q p) p (reading t) k (mod-lt p (omega arith)) h.0 h.1 in
      let whole : p + (q.mask + 1) ≡ (p + q.mask + 1) % 2 ^ 64 =
        omega (arith, k.counted, k.deq_le, c.ok.1) in
      subst
        (λ x.
          Acted q l g t (releasing p v) (record q { seq = upd q.seq (slot q p) x }) l
            (dequeued v true))
        whole
        (Moved-Acted _ _ _ _ _ (slot q p) (p + (q.mask + 1)) free (releasing p v) (dequeued v true)
          (inr refl) (inl refl) (releasing-Moved q l g k t p v h))
