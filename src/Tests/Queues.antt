-- ===== src/Tests/Queues.antt =====
-- The lock-free queue: one thread puts a record in while another takes it out.
use logger.Base.{
  ℕ, ◌+◌, ◌*◌, ◌<◌, ◌⊎◌, ◌≤◌, ◌≡◌, refl, true, none, if◌then◌else◌, ltb, Bool-cases, inl, inr, some,
  [], ◌∷◌, ◌==◌, All, arith, bytes, to_i64, to_u64, pos, ◌++◌,
}
use logger.Record.{Record, blank, clone}
use logger.Transport.{block}
use logger.Transport.Disruptor.{
  entering, leaving, enqueued, dequeued, slot, System, round_up, new_mpmc, dif, act, logged,
  initial, is_done, moved, upd, calls_enqueue, calls_dequeue, moves, Reach, here, next,
}
use logger.Transport.Disruptor.Loops.{
  Disruptor, free, producing, enqueues, calling, new_disruptor, go_on, poll_on, applied, Runs,
  begins, then_moves, dispatches, steps, goes_on,
}
use logger.Transport.Disruptor.Loops.Going.{values, in_hand}
use logger.Transport.Disruptor.Loops.Emission.{emits_what_was_claimed}
use logger.Transport.Disruptor.Cells.{Apart}
use logger.Transport.Disruptor.Delivery.{Far, Delivered}
use logger.Transport.Disruptor.Alone.{alone, calls_alone}
use logger.Transport.Disruptor.Sizes.{new_mpmc_terminates}
use Prim.Native.Nat.{bit_and}

abbrev hello : Record
hello = record blank { message = bytes "hello" }

abbrev called : System
called = record (initial 2) { pc = upd (initial 2).pc 0 (entering hello) }

abbrev twice : System → System
twice s = moved (moved s 0) 0

abbrev stored : System
stored = moved (twice (twice called)) 0

abbrev asked : System
asked = record stored { pc = upd stored.pc 1 leaving }

abbrev emptied : System
emptied = moved (moved (moved (moved (moved asked 1) 1) 1) 1) 1

stored_reached : Reach (initial 2) stored
unfolding initial
stored_reached =
    next
      (next
        (next (next (next (next here (calls_enqueue 0 hello refl)) (moves 0)) (moves 0)) (moves 0))
        (moves 0))
      (moves 0)

stored_idle : is_done (stored.pc 1) ≡ true
unfolding initial act
stored_idle = refl

emptied_reached : Reach (initial 2) emptied
emptied_reached =
    next
      (next
        (next (next (next (next stored_reached (calls_dequeue 1 stored_idle)) (moves 1)) (moves 1))
          (moves 1))
        (moves 1))
      (moves 1)

emptied_claims : emptied.log.claims ≡ 1
unfolding initial new_mpmc round_up act logged dif to_i64 to_u64
emptied_claims = refl

emptied_deq : emptied.queue.deq ≡ 1
unfolding initial new_mpmc round_up act logged dif to_i64 to_u64
emptied_deq = refl

emptied_mask : emptied.queue.mask ≡ 1
unfolding initial new_mpmc round_up act logged dif to_i64 to_u64
emptied_mask = refl

emptied_taken : emptied.log.taken ≡ (0, some hello) ∷ []
unfolding initial new_mpmc round_up act logged dif to_i64 to_u64
emptied_taken = refl

emptied-Far : Far emptied
emptied-Far = omega (arith, emptied_claims, emptied_mask)

emptied_done : (t : ℕ) → is_done (emptied.pc t) ≡ true
unfolding initial new_mpmc round_up act logged dif to_i64 to_u64
emptied_done t = elim (Bool-cases (t == 1)) [
  | inl e ↦ rw e refl
  | inr e ↦ rw e (elim (Bool-cases (t == 0)) [ inl o ↦ rw o refl | inr o ↦ rw o refl ])
]

-- The same within a transport: the thread 1 dispatches a record, and the consumer emits it.
abbrev opened : Disruptor
opened = new_disruptor (pos 2) block

abbrev dispatching : Disruptor
dispatching = record opened {
  sys = calling opened.sys 1 (enqueues (clone hello));
  role = upd opened.role 1 (producing (clone hello));
}

abbrev stepped : ℕ → Disruptor → Disruptor
stepped t s = record s { sys = moved s.sys t }

abbrev thrice : ℕ → Disruptor → Disruptor
thrice t s = stepped t (stepped t (stepped t s))

abbrev queued : Disruptor
queued = stepped 1 (stepped 1 (thrice 1 dispatching))

abbrev fetched : Disruptor
fetched = stepped 0 (stepped 0 (thrice 0 queued))

abbrev shown : Disruptor
shown = applied fetched 0 (go_on fetched.policy fetched.closed (fetched.role 0) (fetched.sys.pc 0))

fetched_done : is_done (fetched.sys.pc 0) ≡ true
unfolding initial new_mpmc new_disruptor round_up act logged dif to_i64 to_u64
fetched_done = refl

opened_free : (opened.role 1 ≡ free) × (is_done (opened.sys.pc 1) ≡ true)
unfolding initial new_disruptor
opened_free = (refl, refl)

fetched-Runs : Runs opened fetched
fetched-Runs =
    let called : Runs opened dispatching =
      then_moves begins (dispatches 1 hello opened_free.0 opened_free.1) in
    let filled : Runs opened queued =
      then_moves
        (then_moves (then_moves (then_moves (then_moves called (steps 1)) (steps 1)) (steps 1))
          (steps 1))
        (steps 1) in
    then_moves
      (then_moves (then_moves (then_moves (then_moves filled (steps 0)) (steps 0)) (steps 0))
        (steps 0))
      (steps 0)

shown_emitted : shown.emitted ≡ some hello ∷ []
unfolding initial new_mpmc new_disruptor round_up act logged dif to_i64 to_u64 go_on poll_on clone
shown_emitted = refl

shown_counts : (shown.sys.log.claims ≡ 1) × (shown.sys.queue.mask ≡ 1)
unfolding initial new_mpmc new_disruptor round_up act logged dif to_i64 to_u64 go_on poll_on
shown_counts = (refl, refl)

emits_what_was_claimed_example :
    (values shown.sys.log.taken ≡ shown.emitted ++ in_hand (shown.sys.pc 0))
    × All (Delivered shown.sys.log) shown.sys.log.taken
    × Apart shown.sys.log.taken
emits_what_was_claimed_example =
    emits_what_was_claimed (pos 2) block shown refl
      (then_moves fetched-Runs (goes_on 0 fetched_done))
      (omega (arith, shown_counts.0, shown_counts.1))

calls_alone_example :
    let q = emptied.queue in
    let put = alone 5 0 (record emptied { pc = upd emptied.pc 0 (entering hello) }) in
    let got = alone 5 0 (record emptied { pc = upd emptied.pc 0 leaving }) in
    let room = ltb q.enq (q.deq + (q.mask + 1)) in
    let waiting = ltb q.deq q.enq in
    (put.pc 0 ≡ enqueued room)
    × (put.queue.enq ≡ (if room then q.enq + 1 else q.enq))
    × (put.queue.deq ≡ q.deq)
    × (got.pc 0 ≡ dequeued (if waiting then emptied.log.ticket q.deq else none) waiting)
    × (got.queue.enq ≡ q.enq)
    × (got.queue.deq ≡ (if waiting then q.deq + 1 else q.deq))
calls_alone_example = calls_alone 2 emptied 0 hello emptied_reached emptied-Far emptied_done

new_mpmc_terminates_example :
    (5 ≤ (new_mpmc 5).mask + 1)
    × (2 ≤ (new_mpmc 5).mask + 1)
    × (((new_mpmc 5).mask + 1 ≡ 2) ⊎ ((new_mpmc 5).mask + 1 < 2 * 5))
    × (bit_and 13 (new_mpmc 5).mask ≡ slot (new_mpmc 5) 13)
new_mpmc_terminates_example = new_mpmc_terminates 5 13 (omega arith)
