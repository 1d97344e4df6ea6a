-- ===== src/Transport/Disruptor/Loops/Going.antt =====
-- How the threads of the transport go on, where nothing is evicted.
use logger.Base.{
  ℕ, ◌+◌, ◌%◌, ◌^◌, ◌≡◌, refl, sym, ap, ◌∙◌, Bool, true, false, Bool-cases, inl, inr, Option, none,
  List, [], ◌∷◌, ◌++◌, append-nil, ◌==◌, ℤ, pos, eq_ℤ, ltb_ℤ, arith,
}
use logger.Record.{Record}
use logger.Transport.{Policy, drop_oldest}
use logger.Transport.Disruptor.{
  Mpmc, Log, Pc, idle, enqueued, dequeued, entering, enqueuing, claiming, filling, publishing,
  leaving, dequeuing, taking, emptying, releasing, look, dif, slot, act, logged, is_done,
}
use logger.Transport.Disruptor.Loops.{
  Role, free, producing, polling, checking, draining, stopped, Call, no_call, enqueues, dequeues,
  dispatch_on, poll_on, drain_on, go_on,
}

-- What was taken out, the first one first.
abbrev pub values : List (ℕ × Option Record) → List (Option Record)
values [] = []
values (x ∷ xs) = values xs ++ (x.1 ∷ [])

abbrev pub in_hand : Pc → List (Option Record)
in_hand (releasing p v) = v ∷ []
in_hand (dequeued v true) = v ∷ []
in_hand _ = []

-- A thread that is in no call of dequeue.
abbrev pub puts : Pc → Bool
puts idle = true
puts (enqueued b) = true
puts (entering v) = true
puts (enqueuing v p) = true
puts (claiming v p) = true
puts (filling v p) = true
puts (publishing v p) = true
puts _ = false

abbrev pub produces : Role → Bool
produces free = true
produces (producing c) = true
produces _ = false

-- The consumer, which has nothing in hand where it looks at `closed`.
abbrev pub consumes : Role → Pc → Bool
consumes polling pc = true
consumes checking (dequeued v false) = true
consumes checking _ = false
consumes draining pc = true
consumes stopped pc = true
consumes free pc = false
consumes (producing c) pc = false

abbrev pub evicting : Policy → Bool
evicting drop_oldest = true
evicting _ = false

pub act-puts :
    (q : Mpmc) (l : Log) (pc : Pc)
    → puts pc ≡ true
    → (puts (act q pc).1 ≡ true) × ((logged q pc l).taken ≡ l.taken)
unfolding act logged
act-puts q l idle h = (refl, refl)
act-puts q l (enqueued b) h = (refl, refl)
act-puts q l (entering v) h = (refl, refl)
act-puts q l (enqueuing v p) h = (ground arith, refl)
act-puts q l (claiming v p) h = elim (Bool-cases (q.enq == p)) [
  | inl e ↦ rw e (refl, refl)
  | inr e ↦ rw e (refl, refl)
]
act-puts q l (filling v p) h = (refl, refl)
act-puts q l (publishing v p) h = (refl, refl)
act-puts q l _ h = cc

looks_empty :
    (d : ℤ) (a b c : Pc)
    → in_hand a ≡ []
    → in_hand b ≡ []
    → in_hand c ≡ []
    → in_hand (look d a b c) ≡ []
looks_empty d a b c h k l = elim (Bool-cases (eq_ℤ d (pos 0))) [
  | inl e ↦ rw e h
  | inr e ↦ rw e (elim (Bool-cases (ltb_ℤ d (pos 0))) [ inl e' ↦ rw e' k | inr e' ↦ rw e' l ])
]

pub act-order :
    (q : Mpmc) (l : Log) (pc : Pc) (out : List (Option Record))
    → values l.taken ≡ out ++ in_hand pc
    → values (logged q pc l).taken ≡ out ++ in_hand (act q pc).1
unfolding act logged
act-order q l idle out o = o
act-order q l (enqueuing v p) out o =
    let none_yet =
      looks_empty (dif (q.seq (slot q p)) p) (claiming v p) (enqueued false) (entering v) refl refl
        refl in
    o ∙ ap (λ t. out ++ t) (sym none_yet)
act-order q l (claiming v p) out o = elim (Bool-cases (q.enq == p)) [
  | inl e ↦ rw e o
  | inr e ↦ rw e o
]
act-order q l (dequeuing p) out o =
    let none_yet =
      looks_empty (dif (q.seq (slot q p)) ((p + 1) % 2 ^ 64)) (taking p) (dequeued none false)
        leaving refl refl refl in
    o ∙ ap (λ t. out ++ t) (sym none_yet)
act-order q l (taking p) out o = elim (Bool-cases (q.deq == p)) [ inl e ↦ rw e o | inr e ↦ rw e o ]
act-order q l (emptying p) out o = ap (λ t. t ++ (q.val (slot q p) ∷ [])) (o ∙ append-nil out)
act-order q l _ out o = o

act-checking :
    (q : Mpmc) (pc : Pc) → consumes checking pc ≡ true → consumes checking (act q pc).1 ≡ true
unfolding act
act-checking q (dequeued v false) h = refl
act-checking q _ h = cc

pub act-consumes :
    (q : Mpmc) (r : Role) (pc : Pc) → consumes r pc ≡ true → consumes r (act q pc).1 ≡ true
act-consumes q polling pc h = refl
act-consumes q checking pc h = act-checking q pc h
act-consumes q draining pc h = refl
act-consumes q stopped pc h = refl
act-consumes q free pc h = cc
act-consumes q (producing c) pc h = cc

-- How a producer goes on, where nothing is evicted.
abbrev pub called : Call → Pc → Pc
called no_call pc = pc
called (enqueues c) pc = entering c
called dequeues pc = leaving

pub go_on-puts :
    (p : Policy) (closed : Bool) (r : Role) (pc : Pc)
    → evicting p ≡ false
    → produces r ≡ true
    → puts pc ≡ true
    → is_done pc ≡ true
    → (puts (called (go_on p closed r pc).call pc) ≡ true)
      × (produces (go_on p closed r pc).role ≡ true)
      × ((go_on p closed r pc).emits ≡ [])
unfolding go_on dispatch_on
go_on-puts p closed r pc e h k d = ground arith

quiet : (out taken hand : List (Option Record)) → taken ≡ out ++ hand → taken ≡ (out ++ []) ++ hand
quiet out taken hand o = o ∙ ap (λ t. t ++ hand) (sym (append-nil out))

emitted_now :
    (out taken : List (Option Record)) (v : Option Record)
    → taken ≡ out ++ (v ∷ [])
    → taken ≡ (out ++ (v ∷ [])) ++ []
emitted_now out taken v o = o ∙ sym (append-nil (out ++ (v ∷ [])))

-- What holds when the consumer has gone on.
abbrev pub NextOk : Policy → Bool → Role → Pc → List (Option Record) → List (Option Record) → Type 0
NextOk p closed r pc out taken =
    (consumes (go_on p closed r pc).role (called (go_on p closed r pc).call pc) ≡ true)
    × (taken
        ≡ (out ++ (go_on p closed r pc).emits) ++ in_hand (called (go_on p closed r pc).call pc))

poll_on-Ok :
    (p : Policy) (closed : Bool) (pc : Pc) (out taken : List (Option Record))
    → is_done pc ≡ true
    → taken ≡ out ++ in_hand pc
    → NextOk p closed polling pc out taken
unfolding go_on poll_on
poll_on-Ok p closed idle out taken d o = (refl, quiet out taken [] o)
poll_on-Ok p closed (enqueued b) out taken d o = (refl, quiet out taken [] o)
poll_on-Ok p closed (dequeued v true) out taken d o = (refl, emitted_now out taken v o)
poll_on-Ok p closed (dequeued v false) out taken d o = (refl, quiet out taken [] o)
poll_on-Ok p closed _ out taken d o = cc

drain_on-Ok :
    (p : Policy) (closed : Bool) (pc : Pc) (out taken : List (Option Record))
    → is_done pc ≡ true
    → taken ≡ out ++ in_hand pc
    → NextOk p closed draining pc out taken
unfolding go_on drain_on
drain_on-Ok p closed idle out taken d o = (refl, quiet out taken [] o)
drain_on-Ok p closed (enqueued b) out taken d o = (refl, quiet out taken [] o)
drain_on-Ok p closed (dequeued v true) out taken d o = (refl, emitted_now out taken v o)
drain_on-Ok p closed (dequeued v false) out taken d o = (refl, quiet out taken [] o)
drain_on-Ok p closed _ out taken d o = cc

check_on-Ok :
    (p : Policy) (closed : Bool) (pc : Pc) (out taken : List (Option Record))
    → consumes checking pc ≡ true
    → taken ≡ out ++ in_hand pc
    → NextOk p closed checking pc out taken
unfolding go_on
check_on-Ok p true (dequeued v false) out taken h o = (refl, quiet out taken [] o)
check_on-Ok p false (dequeued v false) out taken h o = (refl, quiet out taken [] o)
check_on-Ok p c _ out taken h o = cc

pub go_on-Ok :
    (p : Policy) (closed : Bool) (r : Role) (pc : Pc) (out taken : List (Option Record))
    → consumes r pc ≡ true
    → is_done pc ≡ true
    → taken ≡ out ++ in_hand pc
    → NextOk p closed r pc out taken
go_on-Ok p closed polling pc out taken h d o = poll_on-Ok p closed pc out taken d o
go_on-Ok p closed draining pc out taken h d o = drain_on-Ok p closed pc out taken d o
go_on-Ok p closed checking pc out taken h d o = check_on-Ok p closed pc out taken h o
go_on-Ok p closed stopped pc out taken h d o =
    unfold go_on in (refl, quiet out taken (in_hand pc) o)
go_on-Ok p closed free pc out taken h d o = cc
go_on-Ok p closed (producing c) pc out taken h d o = cc
