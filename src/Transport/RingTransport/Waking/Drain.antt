-- ===== src/Transport/RingTransport/Waking/Drain.antt =====
-- No waiter sleeps through the closing of the ring, and the worker drains it.
use logger.Base.{
  ℕ, zero, suc, ◌-◌, ◌<◌, ◌≡◌, ◌≢◌, refl, sym, ◌∙◌, true, false, Bool-cases, inl, inr, Option, [],
  ◌∷◌, ◌++◌, get_or, arith,
}
use logger.Record.{Record}
use logger.Transport.{Policy, drop_oldest}
use logger.Transport.RingTransport.{
  Ring, new_ring, store, advance, evict, wait, stored, replaced, refused, overflow, dispatch,
  nothing, took, finished, take_oldest, close, Worker, idle, holding, stopped, System, initial,
  Step, stores, replaces, refuses, ignores, takes, emits, stops, closes, Reach,
}
use logger.Transport.RingTransport
use logger.Transport.RingTransport.Queue.{no_slot}
use logger.Transport.RingTransport.Steps.{Reach-Inv}
use logger.Transport.RingTransport.Delivery.{stopped_in_order}
use logger.Transport.RingTransport.Waking.{
  broadcast, woken, is_own, Live, live, moved, LiveStep, sleeps, parks, others, works, LiveReach,
  here, next, WorkerRun, begins, then_works,
}

take_oldest_some :
    (t : Ring) → 0 < t.count → take_oldest t ≡ took (get_or t.buf t.head no_slot) (advance t)
unfolding take_oldest
take_oldest_some t h = ground arith

take_oldest_end : (t : Ring) → t.count ≡ 0 → t.closed ≡ true → take_oldest t ≡ finished
unfolding take_oldest
take_oldest_end t h c = ground arith

count-advance : (t : Ring) → ((advance t).count ≡ t.count - 1) × ((advance t).closed ≡ t.closed)
unfolding advance
count-advance t = (refl, refl)

-- Who sleeps has a reason to: the worker an open and empty ring, a producer an open one.
record HasReason (l : Live) : Type 0 where
  empty : l.asleep.worker ≡ true → l.sys.ring.count ≡ 0
  open_ : l.asleep.worker ≡ true → l.sys.ring.closed ≡ false
  none_parked : l.sys.ring.closed ≡ true → l.asleep.producers ≡ 0

take_oldest_nothing : (t : Ring) → take_oldest t ≡ nothing → (t.count ≡ 0) × (t.closed ≡ false)
unfolding take_oldest
take_oldest_nothing t e = ground arith

dispatch_wait : (t : Ring) (r : Record) → dispatch t r ≡ wait → t.closed ≡ false
unfolding dispatch overflow
dispatch_wait t r e = ground arith

dispatch_closed :
    (t t' : Ring) (r : Record)
    → (dispatch t r ≡ stored t' → t'.closed ≡ false)
      × (dispatch t r ≡ replaced t' → t'.closed ≡ false)
unfolding dispatch overflow store evict advance
dispatch_closed t t' r = ground arith

dispatch_refused_same :
    (t t' : Ring) (r : Record)
    → dispatch t r ≡ refused t'
    → (t'.count ≡ t.count) × (t'.closed ≡ t.closed)
unfolding dispatch overflow
dispatch_refused_same t t' r e = ground arith

take_oldest_closed :
    (t t' : Ring) (x : Option Record) → take_oldest t ≡ took x t' → t'.closed ≡ t.closed
unfolding take_oldest advance
take_oldest_closed t t' x e = ground arith

module _ (l : Live) (v : HasReason l) where
  others-HasReason : {t : System} (st : Step l.sys t) → is_own st ≡ false → HasReason (moved l st)
  unfolding woken broadcast close
  others-HasReason (stores r t e) o =
      let is = (dispatch_closed l.sys.ring t r).0 e in
      record { empty = λ a. cc; open_ = λ a. cc; none_parked = λ c. cc }
  others-HasReason (replaces r t e) o =
      let is = (dispatch_closed l.sys.ring t r).1 e in
      record { empty = λ a. cc; open_ = λ a. cc; none_parked = λ c. cc }
  others-HasReason (refuses r t e) o =
      let (count, closed) = dispatch_refused_same l.sys.ring t r e in
      record {
        empty = λ a. count ∙ v.empty a;
        open_ = λ a. closed ∙ v.open_ a;
        none_parked = λ c. v.none_parked (sym closed ∙ c);
      }
  others-HasReason (ignores r e) o = v
  others-HasReason (takes x t i e) o = cc
  others-HasReason (emits x e) o = cc
  others-HasReason (stops i e) o = cc
  others-HasReason closes o = elim (Bool-cases l.sys.ring.closed) [
    | inl shut ↦ record {
      empty = λ a. v.empty (rw shut at a);
      open_ = λ a. cc (v.open_ (rw shut at a));
      none_parked = λ c. rw shut (v.none_parked shut);
    }
    | inr open_yet ↦ record {
      empty = λ a. cc (rw open_yet at a);
      open_ = λ a. cc (rw open_yet at a);
      none_parked = λ c. rw open_yet refl;
    }
  ]

  works-HasReason :
      {t : System} (st : Step l.sys t)
      → is_own st ≡ true
      → l.asleep.worker ≡ false
      → HasReason (moved l st)
  unfolding woken
  works-HasReason (takes x t i e) o awake =
      let closed = take_oldest_closed l.sys.ring t x e in
      record {
        empty = λ a. cc;
        open_ = λ a. cc;
        none_parked =
            λ c. let none_left = v.none_parked (sym closed ∙ c) in omega (arith, none_left);
      }
  works-HasReason (emits x e) o awake = record {
    empty = λ a. cc;
    open_ = λ a. cc;
    none_parked = v.none_parked;
  }
  works-HasReason (stops i e) o awake = record {
    empty = λ a. cc;
    open_ = λ a. cc;
    none_parked = v.none_parked;
  }
  works-HasReason (stores r t e) o awake = cc
  works-HasReason (replaces r t e) o awake = cc
  works-HasReason (refuses r t e) o awake = cc
  works-HasReason (ignores r e) o awake = cc
  works-HasReason closes o awake = cc

step-HasReason : (l m : Live) → LiveStep l m → HasReason l → HasReason m
step-HasReason l m (sleeps a i e) v =
    let (count, open_yet) = take_oldest_nothing l.sys.ring e in
    record { empty = λ x. count; open_ = λ x. open_yet; none_parked = v.none_parked }
step-HasReason l m (parks r e) v =
    let open_yet = dispatch_wait l.sys.ring r e in
    record { empty = v.empty; open_ = v.open_; none_parked = λ c. cc }
step-HasReason l m (others st o) v = others-HasReason l v st o
step-HasReason l m (works st o a) v = works-HasReason l v st o a

reach-HasReason : (n : ℕ) (p : Policy) {l : Live} → LiveReach (live n p) l → HasReason l
unfolding new_ring
reach-HasReason n p {l} here = record { empty = λ a. cc; open_ = λ a. cc; none_parked = λ c. cc }
reach-HasReason n p {l} (next {m} r st) = step-HasReason m l st (reach-HasReason n p r)

-- The same run without its sleepers.
forget : {l m : Live} → LiveReach l m → Reach l.sys m.sys
forget here = RingTransport.here
forget (next r (sleeps a i e)) = forget r
forget (next r (parks q e)) = forget r
forget (next r (others st o)) = RingTransport.next (forget r) st
forget (next r (works st o a)) = RingTransport.next (forget r) st

forget_worker : {l m : Live} {s : System} → Reach s l.sys → WorkerRun l m → Reach s m.sys
forget_worker r begins = r
forget_worker r (then_works run st o a) = RingTransport.next (forget_worker r run) st

run_trans : {l m n : Live} → WorkerRun l m → WorkerRun m n → WorkerRun l n
run_trans r begins = r
run_trans r (then_works q st o a) = then_works (run_trans r q) st o a

-- What the worker comes to by itself.
abbrev pub Ends : Live → Type 0
Ends l = (m : Live) × WorkerRun l m × (m.sys.worker ≡ stopped) × (m.sys.accepted ≡ l.sys.accepted)

drain_idle :
    (k : ℕ) (l : Live)
    → l.sys.ring.count ≡ k
    → l.sys.ring.closed ≡ true
    → l.asleep.worker ≡ false
    → l.sys.worker ≡ idle
    → Ends l
unfolding woken
drain_idle zero l e c a w =
    (_, then_works begins (stops w (take_oldest_end l.sys.ring e c)) refl a, refl, refl)
drain_idle (suc k) l e c a w =
    let s = l.sys in
    let x = get_or s.ring.buf s.ring.head no_slot in
    let first : Step s (record s { ring = advance s.ring; worker = holding x }) =
      takes {s = s} x (advance s.ring) w (take_oldest_some s.ring (omega arith)) in
    let one = moved l first in
    let second : Step one.sys
        (record (one.sys) { worker = idle; emitted = s.emitted ++ (x ∷ []) }) =
      emits {s = one.sys} x refl in
    let (m, rest, gone, same) =
      drain_idle k (moved one second) (omega (arith, (count-advance s.ring).0))
        ((count-advance s.ring).1 ∙ c) a refl in
    (m, run_trans (then_works (then_works begins first refl a) second refl a) rest, gone, same)

drain_from :
    (w : Worker) (l : Live)
    → l.sys.worker ≡ w
    → l.sys.ring.closed ≡ true
    → l.asleep.worker ≡ false
    → Ends l
unfolding woken
drain_from stopped l e c a = (l, begins, e, refl)
drain_from idle l e c a = drain_idle l.sys.ring.count l refl c a e
drain_from (holding x) l e c a =
    let s = l.sys in
    let first : Step s (record s { worker = idle; emitted = s.emitted ++ (x ∷ []) }) =
      emits {s = s} x e in
    let (m, rest, gone, same) = drain_idle s.ring.count (moved l first) refl c a refl in
    (m, run_trans (then_works begins first refl a) rest, gone, same)

-- Once the ring is closed, nobody sleeps through it: no producer waits at its condition and neither
-- does the worker, however the calls, the worker and Close interleaved before and whoever slept. So,
-- under Block or DropNewest, the worker comes to its end by its own steps alone, with no further
-- call to wake it, and the sink has then got every record stored before, in order, and no other:
-- what `Close` waits for comes.
pub close_drains :
    (n : ℕ) (p : Policy) (l : Live)
    → p ≢ drop_oldest
    → LiveReach (live n p) l
    → l.sys.ring.closed ≡ true
    → (l.asleep.worker ≡ false)
      × (l.asleep.producers ≡ 0)
      × (m : Live) × WorkerRun l m
      × (m.sys.worker ≡ stopped)
      × (m.sys.emitted ≡ l.sys.accepted)
close_drains n p l h r c =
    let v = reach-HasReason n p r in
    let awake : l.asleep.worker ≡ false = elim (Bool-cases l.asleep.worker) [
      | inl a ↦ cc (v.open_ a)
      | inr a ↦ a
    ] in
    let (m, rest, gone, same) = drain_from l.sys.worker l refl c awake in
    let i = Reach-Inv n p (forget_worker (forget r) rest) in
    (awake, v.none_parked c, m, rest, gone, stopped_in_order m.sys i h gone ∙ same)
