-- ===== src/Transport/Disruptor/Delivery.antt =====
-- What every interleaving of calls of `enqueue` and `dequeue` keeps.
use native.Mathlib.Nat.{mod-eq_of_lt}
use logger.Base.{
  ℕ, zero, suc, ◌+◌, ◌-◌, ◌*◌, ◌^◌, ◌<◌, ◌≤◌, ◌≡◌, ◌≢◌, refl, sym, subst, ◌∙◌, inl, inr, Bool-cases,
  Option, some, List, [], ◌∷◌, ltb, ◌==◌, arith, All, ap, none, true, ◌%◌,
}
use logger.Record.{Record}
use logger.Transport.Disruptor.{
  Mpmc, upd, Log, System, Pc, idle, enqueued, dequeued, entering, claiming, filling, publishing,
  leaving, taking, emptying, releasing,
}
use logger.Transport.Disruptor.Cells.{free, Ghost, Apart, TakenOk, Core, PcOk, upd_same, upd_other}
use logger.Transport.Disruptor.{
  act, is_done, logged, round_up, new_mpmc, initial, Step, calls_enqueue, calls_dequeue, moves,
  Reach, here, next,
}
use logger.Transport.Disruptor.Owners.{owner, at_cell, Owned, stays-Owned}
use logger.Transport.Disruptor.Acts.{act-Acted}

-- What holds between any two steps.
pub record Inv (s : System) : Type 0 where
  pub ghost : Ghost
  pub core : Core s.queue s.log ghost
  pub threads : (t : ℕ) → PcOk s.queue s.log ghost t (s.pc t)
  pub owned : (i u : ℕ) → owner (ghost.phase i) ≡ some u → at_cell s.queue (s.pc u) ≡ some i

act_mask : (q : Mpmc) (pc : Pc) → (act q pc).0.mask ≡ q.mask
unfolding act
act_mask q idle = refl
act_mask q (claiming v p) = elim (Bool-cases (q.enq == p)) [ inl e ↦ rw e refl | inr e ↦ rw e refl ]
act_mask q (taking p) = elim (Bool-cases (q.deq == p)) [ inl e ↦ rw e refl | inr e ↦ rw e refl ]
act_mask q _ = refl

claims_up : (q : Mpmc) (pc : Pc) (l : Log) → l.claims ≤ (logged q pc l).claims
unfolding logged
claims_up q (claiming v p) l = elim (Bool-cases (q.enq == p)) [
  | inl e ↦ rw e (omega arith)
  | inr e ↦ rw e (omega arith)
]
claims_up q _ l = omega arith

-- Fewer claims than bring a counter to 2^63.
abbrev pub Far : System → Type 0
Far s = s.log.claims + 1 + (s.queue.mask + 1) < 2 ^ 63

-- A thread at `pc`, with the others where they were.
threads_set :
    (q q' : Mpmc) (l l' : Log) (g g' : Ghost) (pc : ℕ → Pc) (t : ℕ) (new : Pc)
    → PcOk q' l' g' t new
    → ((u : ℕ) (p : Pc) → u ≢ t → PcOk q l g u p → PcOk q' l' g' u p)
    → ((u : ℕ) → PcOk q l g u (pc u))
    → (u : ℕ) → PcOk q' l' g' u (upd pc t new u)
threads_set q q' l l' g g' pc t new own others h u = elim (Bool-cases (u == t)) [
  | inl e ↦
      let same : u ≡ t = ground arith in rw e (subst (λ x. PcOk q' l' g' x new) (sym same) own)
  | inr e ↦ let other : u ≢ t = ground arith in rw e (others u (pc u) other (h u))
]

at_cell_same :
    (q q' : Mpmc) (pc : Pc) (i : ℕ)
    → q'.mask ≡ q.mask
    → at_cell q pc ≡ some i
    → at_cell q' pc ≡ some i
at_cell_same q q' (filling v p) i e h = ap (λ m. some (p % (m + 1))) e ∙ h
at_cell_same q q' (publishing v p) i e h = ap (λ m. some (p % (m + 1))) e ∙ h
at_cell_same q q' (emptying p) i e h = ap (λ m. some (p % (m + 1))) e ∙ h
at_cell_same q q' (releasing p v) i e h = ap (λ m. some (p % (m + 1))) e ∙ h
at_cell_same q q' _ i e h = h

Owned-set :
    (q q' : Mpmc) (g g' : Ghost) (pc : ℕ → Pc) (t : ℕ) (new : Pc)
    → q'.mask ≡ q.mask
    → Owned q q' g g' t (pc t) new
    → ((i u : ℕ) → owner (g.phase i) ≡ some u → at_cell q (pc u) ≡ some i)
    → (i u : ℕ) → owner (g'.phase i) ≡ some u
    → at_cell q' (upd pc t new u) ≡ some i
Owned-set q q' g g' pc t new mask step own i u e = elim (step (λ j. own j t) i u e) [
  | inl mine ↦
      subst (λ x. at_cell q' (upd pc t new x) ≡ some i) (sym mine.0)
        (ap (at_cell q') (upd_same pc t new) ∙ mine.1)
  | inr theirs ↦
      ap (at_cell q') (upd_other pc t new u theirs.0)
      ∙ at_cell_same q q' (pc u) i mask (own i u theirs.1)
]

-- A thread that may call again is at no cell.
pub done_at : (q : Mpmc) (pc : Pc) → is_done pc ≡ true → at_cell q pc ≡ none
done_at q idle d = refl
done_at q (enqueued b) d = refl
done_at q (dequeued v b) d = refl
done_at q _ d = cc

pub Step-Far : {s u : System} → Step s u → Far u → Far s
Step-Far (calls_enqueue t v d) f = f
Step-Far (calls_dequeue t d) f = f
Step-Far {s} (moves t) f =
    omega (arith, f, act_mask s.queue (s.pc t), claims_up s.queue (s.pc t) s.log)

Step-Inv : {s u : System} → Step s u → Far s → Inv s → Inv u
Step-Inv {s} (calls_enqueue t v d) f i = record {
  ghost = i.ghost;
  core = i.core;
  threads =
      threads_set s.queue s.queue s.log s.log i.ghost i.ghost s.pc t (entering v) tt (λ u p o h. h)
        i.threads;
  owned =
      Owned-set s.queue s.queue i.ghost i.ghost s.pc t (entering v) refl
        (stays-Owned s.queue s.queue i.ghost t (s.pc t) (entering v) (done_at s.queue (s.pc t) d))
        i.owned;
}
Step-Inv {s} (calls_dequeue t d) f i = record {
  ghost = i.ghost;
  core = i.core;
  threads =
      threads_set s.queue s.queue s.log s.log i.ghost i.ghost s.pc t leaving tt (λ u p o h. h)
        i.threads;
  owned =
      Owned-set s.queue s.queue i.ghost i.ghost s.pc t leaving refl
        (stays-Owned s.queue s.queue i.ghost t (s.pc t) leaving (done_at s.queue (s.pc t) d))
        i.owned;
}
Step-Inv {s} (moves t) f i =
    let a = act-Acted s.queue s.log i.ghost t i.core (s.pc t) f (i.threads t) in
    record {
      ghost = a.ghost;
      core = a.core;
      threads =
          threads_set s.queue (act s.queue (s.pc t)).0 s.log (logged s.queue (s.pc t) s.log) i.ghost
            a.ghost s.pc t _ a.own a.others i.threads;
      owned =
          Owned-set s.queue (act s.queue (s.pc t)).0 i.ghost a.ghost s.pc t (act s.queue (s.pc t)).1
            (act_mask s.queue (s.pc t)) a.owned i.owned;
    }

pub Reach-Inv : {s u : System} → Inv s → Reach s u → Far u → Inv u
Reach-Inv i here f = i
Reach-Inv i (next r st) f = let far = Step-Far st f in Step-Inv st far (Reach-Inv i r far)

pub round_up_two : (f n size : ℕ) → 2 ≤ n → 2 ≤ round_up f n size
unfolding round_up
round_up_two zero n size h = h
round_up_two (suc f) n size h = elim (Bool-cases (ltb n size)) [
  | inl e ↦ rw e (round_up_two f (2 * n) size (omega arith))
  | inr e ↦ rw e h
]

pub start : (size : ℕ) → Inv (initial size)
unfolding initial new_mpmc
start size =
    let two = round_up_two 64 2 size (omega arith) in
    let n = round_up 64 2 size - 1 in
    record {
      ghost = record { round = λ i. i; phase = λ i. free };
      core = record {
        two = omega arith;
        deq_le = omega arith;
        enq_le = omega arith;
        counted = refl;
        written = λ p lt. absurd (omega arith);
        cells = λ i lt. record {
          own = mod-eq_of_lt lt;
          before_taken = omega arith;
          after_unclaimed = omega arith;
          ok = (refl, omega arith);
        };
        taken = tt;
        apart = tt;
      };
      threads = λ t. tt;
      owned = λ i u e. cc;
    }

-- What was found at a position is the record that its claim was for.
abbrev pub Delivered : Log → ℕ × Option Record → Type 0
Delivered l x = (x.0 < l.claims) × (v : Record) × (x.1 ≡ some v) × (l.ticket x.0 ≡ some v)

all-Delivered :
    (q : Mpmc) (l : Log) (g : Ghost) (xs : List (ℕ × Option Record))
    → Core q l g
    → All (TakenOk q l) xs
    → All (Delivered l) xs
all-Delivered q l g [] k h = tt
all-Delivered q l g (x ∷ xs) k h =
    let lt : x.0 < l.claims = omega (arith, h.0.0, k.deq_le, k.counted) in
    let (v, is) = k.written x.0 lt in ((lt, v, h.0.1 ∙ is, is), all-Delivered q l g xs k h.1)

pub every_record_once :
    (size : ℕ) (s : System)
    → Reach (initial size) s
    → Far s
    → All (Delivered s.log) s.log.taken
      × Apart s.log.taken
      × (s.log.claims ≤ s.queue.deq + (s.queue.mask + 1))
every_record_once size s r far =
    let i = Reach-Inv (start size) r far in
    (
      all-Delivered s.queue s.log i.ghost s.log.taken i.core i.core.taken,
      i.core.apart,
      omega (arith, i.core.enq_le, i.core.counted),
    )
