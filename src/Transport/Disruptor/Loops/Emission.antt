-- ===== src/Transport/Disruptor/Loops/Emission.antt =====
-- What the consumer emits where nothing is evicted.
use logger.Base.{
  ℕ, ◌+◌, ◌%◌, ◌^◌, ◌≡◌, ◌≢◌, refl, sym, subst, ap, ◌∙◌, true, false, Bool-cases, inl, inr, Option,
  List, ◌++◌, append-nil, if◌then◌else◌, ◌==◌, All, ℤ, arith,
}
use logger.Record.{Record, clone}
use logger.Transport.{Policy}
use logger.Transport.Disruptor.{Pc, entering, leaving, act, upd, System, initial, is_done, moved}
use logger.Transport.Disruptor.Cells.{Apart, upd_same, upd_other}
use logger.Transport.Disruptor.Delivery.{Far, Delivered, every_record_once}
use logger.Transport.Disruptor.Loops.Going.{
  values, in_hand, puts, produces, consumes, evicting, called, act-puts, act-order, act-consumes,
  go_on-puts, go_on-Ok,
}
use logger.Transport.Disruptor.Loops.{
  size_of, Role, free, producing, Call, no_call, enqueues, dequeues, Next, go_on, Disruptor,
  calling, new_disruptor, applied, Moves, dispatches, steps, goes_on, closes, Runs, begins,
  then_moves, Runs-Reach,
}

record Inv (s : Disruptor) : Type 0 where
  keeps : evicting s.policy ≡ false
  others : (t : ℕ) → t ≢ 0 → (puts (s.sys.pc t) ≡ true) × (produces (s.role t) ≡ true)
  consumer : consumes (s.role 0) (s.sys.pc 0) ≡ true
  order : values s.sys.log.taken ≡ s.emitted ++ in_hand (s.sys.pc 0)

spread :
    {A : Type 0} (P : A → Type 0) (f : ℕ → A) (t : ℕ) (x : A)
    → P x
    → ((u : ℕ) → u ≢ 0 → P (f u))
    → (u : ℕ) → u ≢ 0
    → P (upd f t x u)
spread P f t x h others u o = elim (Bool-cases (u == t)) [
  | inl e ↦ rw e h
  | inr e ↦ rw e (others u o)
]

calling-others :
    (P : Pc → Type 0) (s : System) (t : ℕ) (c : Call)
    → P (called c (s.pc t))
    → ((u : ℕ) → u ≢ 0 → P (s.pc u))
    → (u : ℕ) → u ≢ 0
    → P ((calling s t c).pc u)
calling-others P s t no_call h others = others
calling-others P s t (enqueues c) h others = spread P s.pc t (entering c) h others
calling-others P s t dequeues h others = spread P s.pc t leaving h others

calling_self : (s : System) (t : ℕ) (c : Call) → (calling s t c).pc t ≡ called c (s.pc t)
calling_self s t no_call = refl
calling_self s t (enqueues c) = upd_same s.pc t (entering c)
calling_self s t dequeues = upd_same s.pc t leaving

calling_other : (s : System) (t u : ℕ) (c : Call) → u ≢ t → (calling s t c).pc u ≡ s.pc u
calling_other s t u no_call o = refl
calling_other s t u (enqueues c) o = upd_other s.pc t (entering c) u o
calling_other s t u dequeues o = upd_other s.pc t leaving u o

calling_log : (s : System) (t : ℕ) (c : Call) → (calling s t c).log ≡ s.log
calling_log s t no_call = refl
calling_log s t (enqueues c) = refl
calling_log s t dequeues = refl

-- A producer has gone on: its call and its role are set, and nothing is emitted.
producer-Inv :
    (s : Disruptor) (t : ℕ) (c : Call) (r : Role) (emitted : List (Option Record)) (dropped : ℕ)
    → Inv s
    → t ≢ 0
    → puts (called c (s.sys.pc t)) ≡ true
    → produces r ≡ true
    → emitted ≡ s.emitted
    → Inv (record s {
      sys = calling s.sys t c;
      role = upd s.role t r;
      emitted = emitted;
      dropped = dropped;
    })
producer-Inv s t c r emitted dropped i o h k e =
    let there : 0 ≢ t = λ x. o (sym x) in
    let pc0 = calling_other s.sys t 0 c there in
    let role0 = upd_other s.role t r 0 there in
    record {
      keeps = i.keeps;
      others = λ u w. (
        calling-others (λ x. puts x ≡ true) s.sys t c h (λ v y. (i.others v y).0) u w,
        spread (λ x. produces x ≡ true) s.role t r k (λ v y. (i.others v y).1) u w,
      );
      consumer =
          ap (λ x. consumes x ((calling s.sys t c).pc 0)) role0
          ∙ ap (consumes (s.role 0)) pc0
          ∙ i.consumer;
      order =
          ap (λ l. values l.taken) (calling_log s.sys t c)
          ∙ i.order
          ∙ ap (λ x. x ++ in_hand (s.sys.pc 0)) (sym e)
          ∙ ap (λ x. emitted ++ in_hand x) (sym pc0);
    }

-- The consumer has gone on.
consumer-Inv :
    (s : Disruptor) (n : Next) (dropped : ℕ)
    → Inv s
    → consumes n.role (called n.call (s.sys.pc 0)) ≡ true
    → values s.sys.log.taken ≡ (s.emitted ++ n.emits) ++ in_hand (called n.call (s.sys.pc 0))
    → Inv (record s {
      sys = calling s.sys 0 n.call;
      role = upd s.role 0 n.role;
      emitted = s.emitted ++ n.emits;
      dropped = dropped;
    })
consumer-Inv s n dropped i h k =
    let pc0 = calling_self s.sys 0 n.call in
    record {
      keeps = i.keeps;
      others = λ u o. (
        (ap puts (calling_other s.sys 0 u n.call o)) ∙ (i.others u o).0,
        ap produces (upd_other s.role 0 n.role u o) ∙ (i.others u o).1,
      );
      consumer =
          ap (consumes (upd s.role 0 n.role 0)) pc0
          ∙ ap (λ x. consumes x (called n.call (s.sys.pc 0))) (upd_same s.role 0 n.role)
          ∙ h;
      order =
          ap (λ l. values l.taken) (calling_log s.sys 0 n.call)
          ∙ k
          ∙ ap (λ x. (s.emitted ++ n.emits) ++ in_hand x) (sym pc0);
    }

moved_consumer : (s : Disruptor) → Inv s → Inv (record s { sys = moved s.sys 0 })
moved_consumer s i =
    let pc0 = upd_same s.sys.pc 0 (act s.sys.queue (s.sys.pc 0)).1 in
    record {
      keeps = i.keeps;
      others = λ u o. (
        ap puts (upd_other s.sys.pc 0 (act s.sys.queue (s.sys.pc 0)).1 u o) ∙ (i.others u o).0,
        (i.others u o).1,
      );
      consumer =
          ap (consumes (s.role 0)) pc0
          ∙ act-consumes s.sys.queue (s.role 0) (s.sys.pc 0) i.consumer;
      order =
          act-order s.sys.queue s.sys.log (s.sys.pc 0) s.emitted i.order
          ∙ ap (λ x. s.emitted ++ in_hand x) (sym pc0);
    }

moved_producer : (s : Disruptor) (t : ℕ) → Inv s → t ≢ 0 → Inv (record s { sys = moved s.sys t })
moved_producer s t i o =
    let there : 0 ≢ t = λ x. o (sym x) in
    let pc0 = upd_other s.sys.pc t (act s.sys.queue (s.sys.pc t)).1 0 there in
    let (h, same) = act-puts s.sys.queue s.sys.log (s.sys.pc t) (i.others t o).0 in
    record {
      keeps = i.keeps;
      others = λ u w. (
        spread (λ x. puts x ≡ true) s.sys.pc t (act s.sys.queue (s.sys.pc t)).1 h
            (λ v y. (i.others v y).0) u w,
        (i.others u w).1,
      );
      consumer = ap (consumes (s.role 0)) pc0 ∙ i.consumer;
      order = ap values same ∙ i.order ∙ ap (λ x. s.emitted ++ in_hand x) (sym pc0);
    }

goes_on-Inv :
    (s : Disruptor) (t : ℕ)
    → Inv s
    → is_done (s.sys.pc t) ≡ true
    → Inv (applied s t (go_on s.policy s.closed (s.role t) (s.sys.pc t)))
goes_on-Inv s t i d = elim (Bool-cases (t == 0)) [
  | inl e ↦
      let same : t ≡ 0 = ground arith in
      let done : is_done (s.sys.pc 0) ≡ true = subst (λ z. is_done (s.sys.pc z) ≡ true) same d in
      let n = go_on s.policy s.closed (s.role 0) (s.sys.pc 0) in
      let ok =
        go_on-Ok s.policy s.closed (s.role 0) (s.sys.pc 0) s.emitted (values s.sys.log.taken)
          i.consumer done i.order in
      subst (λ z. Inv (applied s z (go_on s.policy s.closed (s.role z) (s.sys.pc z)))) (sym same)
        (consumer-Inv s n (if n.drops then (s.dropped + 1) % 2 ^ 64 else s.dropped) i ok.0 ok.1)
  | inr e ↦
      let other : t ≢ 0 = ground arith in
      let n = go_on s.policy s.closed (s.role t) (s.sys.pc t) in
      let ok =
        go_on-puts s.policy s.closed (s.role t) (s.sys.pc t) i.keeps (i.others t other).1
          (i.others t other).0 d in
      producer-Inv s t n.call n.role (s.emitted ++ n.emits)
        (if n.drops then (s.dropped + 1) % 2 ^ 64 else s.dropped) i other ok.0 ok.1
        (ap (λ x. s.emitted ++ x) ok.2 ∙ append-nil s.emitted)
]

consumer_not_free : (r : Role) (pc : Pc) → consumes r pc ≡ true → r ≢ free
consumer_not_free r pc h e = by_free (ap (λ x. consumes x pc) (sym e) ∙ h)
  where
    by_free : false ≢ true
    by_free h = cc

Moves-Inv : {s u : Disruptor} → Moves s u → Inv s → Inv u
Moves-Inv {s} (dispatches t r f d) i =
    let other : t ≢ 0 =
      λ e. consumer_not_free (s.role 0) (s.sys.pc 0) i.consumer (ap s.role (sym e) ∙ f) in
    producer-Inv s t (enqueues (clone r)) (producing (clone r)) s.emitted s.dropped i other refl
      refl refl
Moves-Inv {s} (steps t) i = elim (Bool-cases (t == 0)) [
  | inl e ↦
      let same : t ≡ 0 = ground arith in
      subst (λ z. Inv (record s { sys = moved s.sys z })) (sym same) (moved_consumer s i)
  | inr e ↦ let other : t ≢ 0 = ground arith in moved_producer s t i other
]
Moves-Inv {s} (goes_on t d) i = goes_on-Inv s t i d
Moves-Inv {s} closes i = record {
  keeps = i.keeps;
  others = i.others;
  consumer = i.consumer;
  order = i.order;
}

Runs-Inv : {s u : Disruptor} → Inv s → Runs s u → Inv u
Runs-Inv i begins = i
Runs-Inv i (then_moves r m) = Moves-Inv m (Runs-Inv i r)

start :
    (capacity : ℤ) (policy : Policy) → evicting policy ≡ false → Inv (new_disruptor capacity policy)
unfolding new_disruptor initial
start capacity policy h = record {
  keeps = h;
  others = λ u o. let off : (u == 0) ≡ false = ground arith in (rw off refl, rw off refl);
  consumer = refl;
  order = refl;
}

-- Under Block and DropNewest, from a new disruptor transport and however the atomic steps of any
-- number of producers, of the consumer and of Close interleave: what the consumer has emitted, with
-- the record that it has in hand, is exactly what was taken out of the queue, in that order, and
-- each of these is the record of the call of Dispatch that claimed its position, no position twice.
-- This is shown up to 2^63 claims less the number of cells.
pub emits_what_was_claimed :
    (capacity : ℤ) (policy : Policy) (s : Disruptor)
    → evicting policy ≡ false
    → Runs (new_disruptor capacity policy) s
    → Far s.sys
    → (values s.sys.log.taken ≡ s.emitted ++ in_hand (s.sys.pc 0))
      × All (Delivered s.sys.log) s.sys.log.taken
      × Apart s.sys.log.taken
emits_what_was_claimed capacity policy s h r far =
    let i = Runs-Inv (start capacity policy h) r in
    let once = every_record_once (size_of capacity) s.sys (Runs-Reach capacity policy r) far in
    (i.order, once.0, once.1)
