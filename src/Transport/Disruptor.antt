-- ===== src/Transport/Disruptor.antt =====
-- The queue of transport_disruptor.go. Each load, store and compare-and-swap of an atomic, and the
-- work on a cell's value in between, is one step of the thread that is at it.
pub mod Cells
pub mod Actions
pub mod Moves
pub mod Publishes
pub mod Takes
pub mod Owners
pub mod Acts
pub mod Delivery
pub mod Complete
pub mod Solo
pub mod Alone
pub mod Sizes
pub mod Loops
use logger.Base.{
  ℕ, zero, suc, ◌+◌, ◌-◌, ◌*◌, ◌%◌, ◌^◌, ◌≡◌, Bool, true, false, Option, none, some, List, [], ◌∷◌,
  if◌then◌else◌, ltb, ◌==◌, ℤ, pos, ◌-ℤ◌, ltb_ℤ, eq_ℤ, to_i64, to_u64,
}
use logger.Record.{Record}

-- `mpmc`, with its cells by their index: the sequence number and the value, nil at first.
pub record Mpmc : Type 0 where
  pub seq : ℕ → ℕ
  pub val : ℕ → Option Record
  pub mask : ℕ
  pub enq : ℕ
  pub deq : ℕ

-- `for n < size { n <<= 1 }`, with so many rounds to go.
unfoldable pub round_up : ℕ → ℕ → ℕ → ℕ
round_up zero n size = n
round_up (suc f) n size = let more = round_up f (2 * n) size in if ltb n size then more else n

-- `newMPMC`, for sizes up to 2^62: for a larger one the doubled int of the source overflows.
unfoldable pub new_mpmc : ℕ → Mpmc
unfolding round_up
new_mpmc size = record {
  seq = λ i. i;
  val = λ i. none;
  mask = round_up 64 2 size - 1;
  enq = 0;
  deq = 0;
}

-- `pos & q.mask`, where the mask is a power of two less one.
abbrev pub slot : Mpmc → ℕ → ℕ
slot q p = p % (q.mask + 1)

abbrev pub upd : {A : Type 0} → (ℕ → A) → ℕ → A → ℕ → A
upd f i x j = if j == i then x else f j

-- `int64(a) - int64(b)`
unfoldable pub dif : ℕ → ℕ → ℤ
dif a b = to_i64 (to_u64 (to_i64 a -ℤ to_i64 b))

-- Where a thread is: with no call, or behind one that returned; in `enqueue` of a record, at the
-- load of the cursor, at the load of the cell's number, at the compare-and-swap, and at the two
-- lines behind it; and the same in `dequeue`.
pub data Pc : Type 0 where
  idle : Pc
  enqueued : Bool → Pc
  dequeued : Option Record → Bool → Pc
  entering : Record → Pc
  enqueuing : Record → ℕ → Pc
  claiming : Record → ℕ → Pc
  filling : Record → ℕ → Pc
  publishing : Record → ℕ → Pc
  leaving : Pc
  dequeuing : ℕ → Pc
  taking : ℕ → Pc
  emptying : ℕ → Pc
  releasing : ℕ → Option Record → Pc

-- The three cases of the two switches.
abbrev pub look : {A : Type 0} → ℤ → A → A → A → A
look d same less more = if eq_ℤ d (pos 0) then same else if ltb_ℤ d (pos 0) then less else more

-- The next step of a thread, by the lines of `enqueue` and of `dequeue`.
unfoldable pub act : Mpmc → Pc → Mpmc × Pc
unfolding dif
act q idle = (q, idle)
act q (enqueued b) = (q, enqueued b)
act q (dequeued v b) = (q, dequeued v b)
act q (entering v) = (q, enqueuing v q.enq)
act q (enqueuing v p) =
    (q, look (dif (q.seq (slot q p)) p) (claiming v p) (enqueued false) (entering v))
act q (claiming v p) =
    if q.enq == p then (record q { enq = (p + 1) % 2 ^ 64 }, filling v p) else (q, enqueuing v p)
act q (filling v p) = (record q { val = upd q.val (slot q p) (some v) }, publishing v p)
act q (publishing v p) = (record q { seq = upd q.seq (slot q p) ((p + 1) % 2 ^ 64) }, enqueued true)
act q leaving = (q, dequeuing q.deq)
act q (dequeuing p) =
    (q, look (dif (q.seq (slot q p)) ((p + 1) % 2 ^ 64)) (taking p) (dequeued none false) leaving)
act q (taking p) =
    if q.deq == p then (record q { deq = (p + 1) % 2 ^ 64 }, emptying p) else (q, dequeuing p)
act q (emptying p) = (record q { val = upd q.val (slot q p) none }, releasing p (q.val (slot q p)))
act q (releasing p v) =
    (record q { seq = upd q.seq (slot q p) ((p + q.mask + 1) % 2 ^ 64) }, dequeued v true)

-- What has happened so far: the records by the position that their thread has claimed, the number
-- of claims, and the positions that were emptied with what was found there, the last one first.
pub record Log : Type 0 where
  pub ticket : ℕ → Option Record
  pub claims : ℕ
  pub taken : List (ℕ × Option Record)

unfoldable pub logged : Mpmc → Pc → Log → Log
logged q (claiming v p) l =
    if q.enq == p
    then record l { ticket = upd l.ticket l.claims (some v); claims = l.claims + 1 }
    else l
logged q (emptying p) l = record l { taken = (p, q.val (slot q p)) ∷ l.taken }
logged q _ l = l

pub record System : Type 0 where
  pub queue : Mpmc
  pub pc : ℕ → Pc
  pub log : Log

unfoldable pub initial : ℕ → System
unfolding new_mpmc
initial size = record {
  queue = new_mpmc size;
  pc = λ t. idle;
  log = record { ticket = λ p. none; claims = 0; taken = [] };
}

-- A thread that may call again.
abbrev pub is_done : Pc → Bool
is_done idle = true
is_done (enqueued b) = true
is_done (dequeued v b) = true
is_done _ = false

abbrev pub moved : System → ℕ → System
moved s t =
    let (q, pc) = act s.queue (s.pc t) in
    record { queue = q; pc = upd s.pc t pc; log = logged s.queue (s.pc t) s.log }

-- Any number of threads, of which any may be the next.
pub data Step (s : System) : System → Type 0 where
  calls_enqueue :
      (t : ℕ) (v : Record)
      → is_done (s.pc t) ≡ true
      → Step s (record s { pc = upd s.pc t (entering v) })
  calls_dequeue : (t : ℕ) → is_done (s.pc t) ≡ true → Step s (record s { pc = upd s.pc t leaving })
  moves : (t : ℕ) → Step s (moved s t)

pub data Reach (s : System) : System → Type 0 where
  here : Reach s s
  next : {t u : System} → Reach s t → Step t u → Reach s u
