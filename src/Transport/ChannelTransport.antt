-- ===== src/Transport/ChannelTransport.antt =====
-- ChannelTransport of transport.go: a buffered channel that producers send to and one worker
-- receives from. Each operation on the channel is one step; a send or a receive that has to wait
-- takes no step until it can go on.
pub mod Order
use logger.Base.{
  ℕ, ◌+◌, ◌%◌, ◌^◌, ◌≡◌, Bool, true, false, Option, none, some, List, [], ◌∷◌, ◌++◌, if◌then◌else◌,
  ltb, length, ℤ, pos, negsuc,
}
use logger.Record.{Record, clone}
use logger.Transport.{Policy, block, drop_newest, drop_oldest}

-- The channel is what its buffer holds, oldest first, with its capacity and whether it is closed.
pub record Channel : Type 0 where
  pub ch : List Record
  pub capacity : ℕ
  pub closed : Bool
  pub policy : Policy
  pub dropped : ℕ

abbrev pub capacity_of : ℤ → ℕ
capacity_of (pos n) = if ltb n 1 then 1024 else n
capacity_of (negsuc n) = 1024

unfoldable pub new_channel : ℤ → Policy → Channel
new_channel capacity policy = record {
  ch = [];
  capacity = capacity_of capacity;
  closed = false;
  policy = policy;
  dropped = 0;
}

-- What a send meets: a closed channel, on which Go panics, room, or none.
pub data Sent : Type 0 where
  panics : Sent
  sent : Channel → Sent
  full : Sent

unfoldable pub send : Channel → Record → Sent
send t c =
    if t.closed
    then panics
    else if ltb (length t.ch) t.capacity
    then sent (record t { ch = t.ch ++ (c ∷ []) })
    else full

-- What a receive meets: the oldest record, a closed and empty channel, or an open and empty one.
pub data Received : Type 0 where
  received : Record → Channel → Received
  ended : Received
  empty : Received

receive_of : Channel → List Record → Received
receive_of t [] = if t.closed then ended else empty
receive_of t (r ∷ rs) = received r (record t { ch = rs })

unfoldable pub receive : Channel → Received
unfolding receive_of
receive t = receive_of t t.ch

abbrev pub add_dropped : Channel → Channel
add_dropped t = record t { dropped = (t.dropped + 1) % 2 ^ 64 }

-- How a call of `Dispatch` goes on at the channel: it returns with the record sent, or with the
-- record refused and counted, it waits, it evicts, or it panics.
pub data Dispatched : Type 0 where
  returns : Channel → Dispatched
  refuses : Channel → Dispatched
  waits : Dispatched
  evicts : Dispatched
  fails : Dispatched

-- A full channel, by the policy.
unfoldable pub overflow : Policy → Channel → Dispatched
overflow block t = waits
overflow drop_newest t = refuses (add_dropped t)
overflow drop_oldest t = evicts

outcome : Channel → Sent → Dispatched
outcome t panics = fails
outcome t (sent u) = returns u
outcome t full = overflow t.policy t

-- `Dispatch`, on the clone of the caller's record.
unfoldable pub dispatch : Channel → Record → Dispatched
unfolding outcome overflow clone send
dispatch t r = outcome t (send t (clone r))

-- The inner select of `DropOldest`: of an open and empty channel nothing is evicted, and one that is
-- closed and empty gives nil, which is counted as well; the next send panics then.
unfoldable pub evict : Channel → Received → Option (Option Record × Channel)
evict t (received r u) = some (some r, add_dropped u)
evict t ended = some (none, add_dropped t)
evict t empty = none

unfoldable pub close : Channel → Channel
close t = record t { closed = true }

-- The worker: at its receive, with a record to emit, or gone.
pub data Worker : Type 0 where
  idle : Worker
  holding : Record → Worker
  stopped : Worker

-- How a record left the buffer.
pub data Way : Type 0 where
  to_worker evicted : Way

-- The transport with what has happened so far: the records sent, those that left the buffer and
-- how, those emitted, and the numbers of records that `DropNewest` refused and of nils evicted.
pub record System : Type 0 where
  pub channel : Channel
  pub worker : Worker
  pub accepted : List Record
  pub left : List (Record × Way)
  pub emitted : List Record
  pub refused : ℕ
  pub nils : ℕ

abbrev pub initial : ℤ → Policy → System
initial capacity policy = record {
  channel = new_channel capacity policy;
  worker = idle;
  accepted = [];
  left = [];
  emitted = [];
  refused = 0;
  nils = 0;
}

-- The steps of `Dispatch`, `run` and `Close`, by any number of producers and in any order. A
-- producer that found the channel full evicts later, whatever has happened in between.
pub data Step : System → System → Type 0 where
  sends :
      {s : System} (r : Record) (t : Channel)
      → dispatch s.channel r ≡ returns t
      → Step s (record s { channel = t; accepted = s.accepted ++ (clone r ∷ []) })
  drops :
      {s : System} (r : Record) (t : Channel)
      → dispatch s.channel r ≡ refuses t
      → Step s (record s { channel = t; refused = s.refused + 1 })
  makes_room :
      {s : System} (r : Record) (t : Channel)
      → s.channel.policy ≡ drop_oldest
      → evict s.channel (receive s.channel) ≡ some (some r, t)
      → Step s (record s { channel = t; left = s.left ++ ((r, evicted) ∷ []) })
  counts_nil :
      {s : System} (t : Channel)
      → s.channel.policy ≡ drop_oldest
      → evict s.channel (receive s.channel) ≡ some (none, t)
      → Step s (record s { channel = t; nils = s.nils + 1 })
  takes :
      {s : System} (r : Record) (t : Channel)
      → s.worker ≡ idle
      → receive s.channel ≡ received r t
      → Step s
          (record s { channel = t; worker = holding r; left = s.left ++ ((r, to_worker) ∷ []) })
  emits :
      {s : System} (r : Record)
      → s.worker ≡ holding r
      → Step s (record s { worker = idle; emitted = s.emitted ++ (r ∷ []) })
  stops :
      {s : System}
      → s.worker ≡ idle
      → receive s.channel ≡ ended
      → Step s (record s { worker = stopped })
  closes : {s : System} → Step s (record s { channel = close s.channel })

pub data Reach (s : System) : System → Type 0 where
  here : Reach s s
  next : {t u : System} → Reach s t → Step t u → Reach s u
