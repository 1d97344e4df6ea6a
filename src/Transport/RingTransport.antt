-- ===== src/Transport/RingTransport.antt =====
-- transport_ring.go: a bounded ring that producers fill and one worker empties. What a method does
-- under the mutex is one step; a producer or the worker that waits on a condition takes no step
-- until its test lets it through; who sleeps and who is woken is in Waking.
pub mod Queue
pub mod Steps
pub mod Delivery
pub mod Waking
use logger.Base.{
  ℕ, zero, suc, ◌+◌, ◌-◌, ◌%◌, ◌^◌, ◌≡◌, Bool, true, false, Option, none, some, List, [], ◌∷◌, ◌++◌,
  if◌then◌else◌, ltb, ◌==◌, replicate, get_or, set, length,
}
use logger.Record.{Record, clone}
use logger.Transport.{Policy, block, drop_newest, drop_oldest}

-- The fields under the mutex. A slot is a pointer to a record, nil when it is empty.
pub record Ring : Type 0 where
  pub buf : List (Option Record)
  pub head : ℕ
  pub tail : ℕ
  pub count : ℕ
  pub policy : Policy
  pub closed : Bool
  pub dropped : ℕ

unfoldable pub new_ring : ℕ → Policy → Ring
new_ring capacity policy = record {
  buf = replicate (if ltb capacity 2 then 1024 else capacity) none;
  head = 0;
  tail = 0;
  count = 0;
  policy = policy;
  closed = false;
  dropped = 0;
}

-- The last lines of `Dispatch`.
unfoldable pub store : Ring → Record → Ring
store t c = record t {
  buf = set t.buf t.tail (some c);
  tail = (t.tail + 1) % length t.buf;
  count = t.count + 1;
}

-- The lines by which both `run` and the case `DropOldest` take out the oldest record, which they
-- do only where there is one.
unfoldable pub advance : Ring → Ring
advance t = record t {
  buf = set t.buf t.head none;
  head = (t.head + 1) % length t.buf;
  count = t.count - 1;
}

unfoldable pub evict : Ring → Ring
evict t = record (advance t) { dropped = (t.dropped + 1) % 2 ^ 64 }

-- How a call of `Dispatch` goes on: it waits, or it returns with the record stored, stored in the
-- place of the oldest one, refused and counted, or ignored because the ring is closed.
pub data Dispatched : Type 0 where
  wait : Dispatched
  stored : Ring → Dispatched
  replaced : Ring → Dispatched
  refused : Ring → Dispatched
  ignored : Dispatched

-- A full ring, by its policy. `DropNewest` counts behind its unlock, with nothing changed before.
overflow : Policy → Ring → Record → Dispatched
overflow block t c = wait
overflow drop_newest t c = refused (record t { dropped = (t.dropped + 1) % 2 ^ 64 })
overflow drop_oldest t c = replaced (store (evict t) c)

-- `Dispatch`, on the clone of the caller's record.
unfoldable pub dispatch : Ring → Record → Dispatched
unfolding overflow clone
dispatch t r =
    if t.closed
    then ignored
    else if t.count == length t.buf
    then overflow t.policy t (clone r)
    else stored (store t (clone r))

-- What the worker finds: nothing yet, the end, or the oldest record.
pub data Taken : Type 0 where
  nothing : Taken
  finished : Taken
  took : Option Record → Ring → Taken

unfoldable pub take_oldest : Ring → Taken
take_oldest t =
    if t.count == 0
    then if t.closed then finished else nothing
    else took (get_or t.buf t.head none) (advance t)

-- The first critical section of `Close`; whom it wakes is `broadcast` of Waking.
unfoldable pub close : Ring → Ring
close t = record t { closed = true }

-- The worker, between two of its steps: at its lock, with a record to emit, or gone.
pub data Worker : Type 0 where
  idle : Worker
  holding : Option Record → Worker
  stopped : Worker

-- The whole transport with what has happened so far: the records emitted to the sink, the clones
-- stored, and the numbers of calls that returned from an open ring and of records lost.
pub record System : Type 0 where
  pub ring : Ring
  pub worker : Worker
  pub emitted : List (Option Record)
  pub accepted : List (Option Record)
  pub calls : ℕ
  pub lost : ℕ

abbrev pub initial : ℕ → Policy → System
initial capacity policy = record {
  ring = new_ring capacity policy;
  worker = idle;
  emitted = [];
  accepted = [];
  calls = 0;
  lost = 0;
}

-- The steps of `Dispatch`, `run` and `Close`, by any number of producers and in any order.
pub data Step : System → System → Type 0 where
  stores :
      {s : System} (r : Record) (t : Ring)
      → dispatch s.ring r ≡ stored t
      → Step s (record s {
        ring = t;
        accepted = s.accepted ++ (some (clone r) ∷ []);
        calls = s.calls + 1;
      })
  replaces :
      {s : System} (r : Record) (t : Ring)
      → dispatch s.ring r ≡ replaced t
      → Step s (record s {
        ring = t;
        accepted = s.accepted ++ (some (clone r) ∷ []);
        calls = s.calls + 1;
        lost = s.lost + 1;
      })
  refuses :
      {s : System} (r : Record) (t : Ring)
      → dispatch s.ring r ≡ refused t
      → Step s (record s { ring = t; calls = s.calls + 1; lost = s.lost + 1 })
  ignores : {s : System} (r : Record) → dispatch s.ring r ≡ ignored → Step s s
  takes :
      {s : System} (x : Option Record) (t : Ring)
      → s.worker ≡ idle
      → take_oldest s.ring ≡ took x t
      → Step s (record s { ring = t; worker = holding x })
  emits :
      {s : System} (x : Option Record)
      → s.worker ≡ holding x
      → Step s (record s { worker = idle; emitted = s.emitted ++ (x ∷ []) })
  stops :
      {s : System}
      → s.worker ≡ idle
      → take_oldest s.ring ≡ finished
      → Step s (record s { worker = stopped })
  closes : {s : System} → Step s (record s { ring = close s.ring })

pub data Reach (s : System) : System → Type 0 where
  here : Reach s s
  next : {t u : System} → Reach s t → Step t u → Reach s u
