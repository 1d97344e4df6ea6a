-- ===== src/Transport/Disruptor/Loops.antt =====
-- DisruptorTransport: the loops of Dispatch and of the consumer, as what a thread does next when its
-- call of the queue has returned.
pub mod Going
pub mod Emission
use logger.Base.{
  ℕ, zero, suc, ◌+◌, ◌%◌, ◌^◌, ◌<◌, ◌≡◌, refl, subst, ap, Bool, true, false, Option, none, some,
  List, [], ◌∷◌, ◌++◌, if◌then◌else◌, ltb, ◌==◌, All, ◌≤◌, Bool-cases, inl, inr, ℤ, pos, negsuc,
}
use logger.Record.{Record, clone}
use logger.Transport.{Policy, block, drop_newest, drop_oldest}
use logger.Transport.Disruptor.{
  Pc, idle, enqueued, dequeued, entering, leaving, upd, System, initial, is_done, moved, Step,
  calls_enqueue, calls_dequeue, moves, Reach, here, next,
}
use logger.Transport.Disruptor.Cells.{Apart}
use logger.Transport.Disruptor.Delivery.{Far, Delivered, every_record_once}

abbrev pub size_of : ℤ → ℕ
size_of (pos n) = if ltb n 2 then 1024 else n
size_of (negsuc n) = 1024

-- A thread: in no method; in Dispatch of a record; or the consumer, at its dequeue, at the load of
-- `closed`, at the dequeue of the last loop, or gone.
pub data Role : Type 0 where
  free : Role
  producing : Record → Role
  polling : Role
  checking : Role
  draining : Role
  stopped : Role

-- What the thread calls next, if anything.
pub data Call : Type 0 where
  no_call : Call
  enqueues : Record → Call
  dequeues : Call

-- How a thread goes on: what it is then, its next call, whether it counts a dropped record, and the
-- record that it emits.
pub record Next : Type 0 where
  pub role : Role
  pub call : Call
  pub drops : Bool
  pub emits : List (Option Record)

abbrev pub going : Role → Call → Next
going r c = record { role = r; call = c; drops = false; emits = [] }

-- `Dispatch`, by the policy and the result of its call.
unfoldable pub dispatch_on : Policy → Record → Pc → Next
dispatch_on p c (enqueued true) = going free no_call
dispatch_on block c (enqueued false) = going (producing c) (enqueues c)
dispatch_on drop_newest c (enqueued false) = record (going free no_call) { drops = true }
dispatch_on drop_oldest c (enqueued false) = going (producing c) dequeues
dispatch_on p c (dequeued v true) = record (going (producing c) (enqueues c)) { drops = true }
dispatch_on p c (dequeued v false) = going (producing c) (enqueues c)
dispatch_on p c _ = going (producing c) no_call

-- `run`, at its first dequeue and at that of the last loop.
unfoldable pub poll_on : Pc → Next
poll_on (dequeued v true) = record (going polling dequeues) { emits = v ∷ [] }
poll_on (dequeued v false) = going checking no_call
poll_on _ = going polling no_call

unfoldable pub drain_on : Pc → Next
drain_on (dequeued v true) = record (going draining dequeues) { emits = v ∷ [] }
drain_on (dequeued v false) = going stopped no_call
drain_on _ = going draining no_call

unfoldable pub go_on : Policy → Bool → Role → Pc → Next
unfolding dispatch_on poll_on drain_on
go_on p closed free pc = going free no_call
go_on p closed (producing c) pc = dispatch_on p c pc
go_on p closed polling pc = poll_on pc
go_on p closed checking pc = if closed then going draining dequeues else going polling dequeues
go_on p closed draining pc = drain_on pc
go_on p closed stopped pc = going stopped no_call

pub record Disruptor : Type 0 where
  pub sys : System
  pub role : ℕ → Role
  pub policy : Policy
  pub dropped : ℕ
  pub closed : Bool
  pub emitted : List (Option Record)

-- The thread `t` with its next call.
abbrev pub calling : System → ℕ → Call → System
calling s t no_call = s
calling s t (enqueues c) = record s { pc = upd s.pc t (entering c) }
calling s t dequeues = record s { pc = upd s.pc t leaving }

-- `NewDisruptorTransport`, whose consumer is the thread 0.
unfoldable pub new_disruptor : ℤ → Policy → Disruptor
unfolding initial
new_disruptor capacity policy = record {
  sys = calling (initial (size_of capacity)) 0 dequeues;
  role = λ t. if t == 0 then polling else free;
  policy = policy;
  dropped = 0;
  closed = false;
  emitted = [];
}

abbrev pub applied : Disruptor → ℕ → Next → Disruptor
applied s t n = record {
  sys = calling s.sys t n.call;
  role = upd s.role t n.role;
  policy = s.policy;
  dropped = if n.drops then (s.dropped + 1) % 2 ^ 64 else s.dropped;
  closed = s.closed;
  emitted = s.emitted ++ n.emits;
}

-- Any thread may be the next: to call Dispatch, to take a step within the queue, or to go on behind
-- its call. `Close` stores `closed`; what it does behind that is to wait.
pub data Moves (s : Disruptor) : Disruptor → Type 0 where
  dispatches :
      (t : ℕ) (r : Record)
      → s.role t ≡ free
      → is_done (s.sys.pc t) ≡ true
      → Moves s (record s {
        sys = calling s.sys t (enqueues (clone r));
        role = upd s.role t (producing (clone r));
      })
  steps : (t : ℕ) → Moves s (record s { sys = moved s.sys t })
  goes_on :
      (t : ℕ)
      → is_done (s.sys.pc t) ≡ true
      → Moves s (applied s t (go_on s.policy s.closed (s.role t) (s.sys.pc t)))
  closes : Moves s (record s { closed = true })

pub data Runs (s : Disruptor) : Disruptor → Type 0 where
  begins : Runs s s
  then_moves : {t u : Disruptor} → Runs s t → Moves t u → Runs s u

calling-Reach :
    (size t : ℕ) (s : System) (c : Call)
    → Reach (initial size) s
    → is_done (s.pc t) ≡ true
    → Reach (initial size) (calling s t c)
calling-Reach size t s no_call r d = r
calling-Reach size t s (enqueues c) r d = next r (calls_enqueue t c d)
calling-Reach size t s dequeues r d = next r (calls_dequeue t d)

Moves-Reach :
    (size : ℕ) {s u : Disruptor}
    → Moves s u
    → Reach (initial size) s.sys
    → Reach (initial size) u.sys
Moves-Reach size {s} (dispatches t r f d) h = calling-Reach size t s.sys (enqueues (clone r)) h d
Moves-Reach size {s} (steps t) h = next h (moves t)
Moves-Reach size {s} (goes_on t d) h =
    calling-Reach size t s.sys (go_on s.policy s.closed (s.role t) (s.sys.pc t)).call h d
Moves-Reach size closes h = h

pub Runs-Reach :
    (capacity : ℤ) (policy : Policy) {s : Disruptor}
    → Runs (new_disruptor capacity policy) s
    → Reach (initial (size_of capacity)) s.sys
unfolding new_disruptor initial
Runs-Reach capacity policy begins = next here (calls_dequeue 0 refl)
Runs-Reach capacity policy (then_moves r m) =
    Moves-Reach (size_of capacity) m (Runs-Reach capacity policy r)
