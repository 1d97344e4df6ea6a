-- ===== src/Transport/RingTransport/Waking.antt =====
-- transport_ring.go: the two conditions. A worker or a producer that waits is asleep and takes no
-- step until another goroutine wakes it, and then it tests again.
pub mod Drain
use logger.Base.{ℕ, ◌+◌, ◌-◌, ◌≡◌, Bool, true, false, if◌then◌else◌}
use logger.Record.{Record}
use logger.Transport.{Policy}
use logger.Transport.RingTransport.{
  wait, dispatch, nothing, take_oldest, idle, System, initial, Step, stores, replaces, refuses,
  ignores, takes, emits, stops, closes,
}

-- The goroutines that sleep: the worker at `notEmpty`, and so many producers at `notFull`.
pub record Sleepers : Type 0 where
  pub worker : Bool
  pub producers : ℕ

-- `notEmpty.Signal()`, at which only the worker can be asleep.
abbrev pub signal_not_empty : Sleepers → Sleepers
signal_not_empty z = record z { worker = false }

-- `notFull.Signal()`, which wakes one if there is one.
abbrev pub signal_not_full : Sleepers → Sleepers
signal_not_full z = record z { producers = z.producers - 1 }

-- Both calls of `Broadcast`.
unfoldable pub broadcast : Sleepers → Sleepers
broadcast z = record { worker = false; producers = 0 }

-- Whom a step wakes; a further call of `Close` returns at once.
unfoldable pub woken : {s t : System} → Step s t → Sleepers → Sleepers
unfolding broadcast
woken (stores r t e) z = signal_not_empty z
woken (replaces r t e) z = signal_not_empty z
woken (refuses r t e) z = z
woken (ignores r e) z = z
woken (takes x t i e) z = signal_not_full z
woken (emits x e) z = z
woken (stops i e) z = z
woken {s} closes z = if s.ring.closed then z else broadcast z

-- The steps that are the worker's own.
abbrev pub is_own : {s t : System} → Step s t → Bool
is_own (takes x t i e) = true
is_own (emits x e) = true
is_own (stops i e) = true
is_own _ = false

pub record Live : Type 0 where
  pub sys : System
  pub asleep : Sleepers

abbrev pub live : ℕ → Policy → Live
live capacity policy = record {
  sys = initial capacity policy;
  asleep = record { worker = false; producers = 0 };
}

abbrev pub moved : (l : Live) {t : System} → Step l.sys t → Live
moved l {t} st = record { sys = t; asleep = woken st l.asleep }

pub data LiveStep (l : Live) : Live → Type 0 where
  sleeps :
      l.asleep.worker ≡ false
      → l.sys.worker ≡ idle
      → take_oldest l.sys.ring ≡ nothing
      → LiveStep l (record l { asleep = record (l.asleep) { worker = true } })
  parks :
      (r : Record)
      → dispatch l.sys.ring r ≡ wait
      → LiveStep l (record l { asleep = record (l.asleep) { producers = l.asleep.producers + 1 } })
  others : {t : System} (st : Step l.sys t) → is_own st ≡ false → LiveStep l (moved l st)
  works :
      {t : System} (st : Step l.sys t)
      → is_own st ≡ true
      → l.asleep.worker ≡ false
      → LiveStep l (moved l st)

pub data LiveReach (l : Live) : Live → Type 0 where
  here : LiveReach l l
  next : {m n : Live} → LiveReach l m → LiveStep m n → LiveReach l n

-- The same with the worker alone, and nobody to wake it.
pub data WorkerRun (l : Live) : Live → Type 0 where
  begins : WorkerRun l l
  then_works :
      {m : Live} {t : System}
      → WorkerRun l m
      → (st : Step m.sys t) → is_own st ≡ true
      → m.asleep.worker ≡ false
      → WorkerRun l (moved m st)
