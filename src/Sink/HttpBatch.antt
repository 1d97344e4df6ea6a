-- ===== src/Sink/HttpBatch.antt =====
-- sink_http.go: records are collected and sent to a server in batches. What a method does under the
-- sink's mutex is one step; a batch that has been taken is in flight until its request has ended.
pub mod Bodies
pub mod Steps
use logger.Base.{
  ℕ, ◌+◌, ◌%◌, ◌^◌, ◌≡◌, Bool, true, false, Option, none, some, List, [], ◌∷◌, ◌++◌, Bytes,
  bytes_eq, if◌then◌else◌, length, ℤ, pos, leb_ℤ, ltb_ℤ,
}
use logger.Level.{Level}
use logger.Record.{Record, clone}

-- The fields that the methods read and write. `timer` says that the pointer is not nil: a call of
-- `flushTimer` is due, or waits for the mutex.
pub record BatchSink : Type 0 where
  pub headers : List (Bytes × Bytes)
  pub max_batch : ℤ
  pub min_lvl : Level
  pub buf : List Record
  pub timer : Bool
  pub dropped : ℕ
  pub closed : Bool

unfoldable pub new_batch_sink : Level → BatchSink
new_batch_sink min_level = record {
  headers = [];
  max_batch = pos 256;
  min_lvl = min_level;
  buf = [];
  timer = false;
  dropped = 0;
  closed = false;
}

-- A write to a map of header fields.
unfoldable pub put_header : List (Bytes × Bytes) → Bytes → Bytes → List (Bytes × Bytes)
put_header [] k v = (k, v) ∷ []
put_header ((k', v') ∷ rest) k v =
    if bytes_eq k' k then (k', v) ∷ rest else (k', v') ∷ put_header rest k v

unfoldable pub with_header : BatchSink → Bytes → Bytes → BatchSink
unfolding put_header
with_header h k v = record h { headers = put_header h.headers k v }

unfoldable pub take_locked : BatchSink → List Record × BatchSink
take_locked h = (h.buf, record h { buf = []; timer = false })

-- How a call of `Emit` leaves the sink: as it was, with the record kept, or with a batch to send.
pub data Emitted : Type 0 where
  ignored : Emitted
  kept : BatchSink → Emitted
  full : List Record × BatchSink → Emitted

-- `Emit`, which always returns nil.
unfoldable pub emit : BatchSink → Record → Emitted
unfolding take_locked clone
emit h r =
    if ltb_ℤ r.level h.min_lvl
    then ignored
    else if h.closed
    then ignored
    else let h' = record h { buf = h.buf ++ (clone r ∷ []) } in
      if leb_ℤ h.max_batch (pos (length h'.buf))
      then full (take_locked h')
      else kept (record h' { timer = true })

-- The critical section of `Close`.
unfoldable pub close : BatchSink → List Record × BatchSink
unfolding take_locked
close h = take_locked (record h { closed = true })

unfoldable pub add_dropped : BatchSink → ℕ → BatchSink
add_dropped h n = record h { dropped = (h.dropped + n) % 2 ^ 64 }

-- How `send` ends: no request could be made of the URL, the request had no answer, or an answer with
-- a status.
pub data Answer : Type 0 where
  no_request : Answer
  no_answer : Answer
  status : ℤ → Answer

unfoldable pub is_failure : Answer → Bool
is_failure no_request = true
is_failure no_answer = true
is_failure (status code) = leb_ℤ (pos 300) code

-- The sink with its batches in flight, the oldest first, and with what has happened so far: the
-- records accepted, those of the batches that the server took, and the number of the others.
pub record System : Type 0 where
  pub sink : BatchSink
  pub in_flight : List (List Record)
  pub accepted : ℕ
  pub delivered : ℕ
  pub lost : ℕ

abbrev pub initial : BatchSink → System
initial h = record { sink = h; in_flight = []; accepted = 0; delivered = 0; lost = 0 }

-- `if len(batch) > 0 { h.send(batch) }`
abbrev pub in_air : List Record → List (List Record) → List (List Record)
in_air [] flying = flying
in_air (r ∷ rs) flying = flying ++ ((r ∷ rs) ∷ [])

abbrev pub flush : System → List Record × BatchSink → System
flush s (batch, h) = record s { sink = h; in_flight = in_air batch s.in_flight }

-- The steps of any number of callers, of the timer and of the requests, in any order. `Sync` is
-- the step `flushes`, and so is `flushTimer`, also when it comes late. The request of any batch in
-- flight may be the next to end.
pub data Step : System → System → Type 0 where
  ignores : {s : System} (r : Record) → emit s.sink r ≡ ignored → Step s s
  keeps :
      {s : System} (r : Record) (h : BatchSink)
      → emit s.sink r ≡ kept h
      → Step s (record s { sink = h; accepted = s.accepted + 1 })
  fills :
      {s : System} (r : Record) (batch : List Record) (h : BatchSink)
      → emit s.sink r ≡ full (batch, h)
      → Step s (record s {
        sink = h;
        in_flight = s.in_flight ++ (batch ∷ []);
        accepted = s.accepted + 1;
      })
  flushes : {s : System} → Step s (flush s (take_locked s.sink))
  closes : {s : System} → Step s (flush s (close s.sink))
  delivers :
      {s : System} (before after : List (List Record)) (batch : List Record) (a : Answer)
      → s.in_flight ≡ before ++ (batch ∷ after)
      → is_failure a ≡ false
      → Step s (record s { in_flight = before ++ after; delivered = s.delivered + length batch })
  fails :
      {s : System} (before after : List (List Record)) (batch : List Record) (a : Answer)
      → s.in_flight ≡ before ++ (batch ∷ after)
      → is_failure a ≡ true
      → Step s (record s {
        sink = add_dropped s.sink (length batch);
        in_flight = before ++ after;
        lost = s.lost + length batch;
      })

pub data Reach (s : System) : System → Type 0 where
  here : Reach s s
  next : {t u : System} → Reach s t → Step t u → Reach s u
