-- ===== src/Transport/Disruptor/Cells.antt =====
-- The cells of the queue: for what position each serves, and how far that has got.
use native.Mathlib.Nat.{mod-lt}
use logger.Base.{
  ℕ, ◌+◌, ◌%◌, ◌^◌, ◌<◌, ◌≤◌, ◌≡◌, ◌≢◌, refl, sym, subst, ◌∙◌, true, false, Option, some, List, [],
  ◌∷◌, ◌==◌, arith, pos, eq_ℤ, to_i64, to_u64, All,
}
use logger.Record.{Record}
use logger.Transport.Disruptor.{
  Mpmc, slot, upd, dif, Log, Pc, idle, enqueued, dequeued, entering, enqueuing, claiming, filling,
  publishing, leaving, dequeuing, taking, emptying, releasing,
}

-- How far the cell has got with its position: no thread has claimed it yet, the thread is writing,
-- the record is there, or a thread is taking it out.
pub data Phase : Type 0 where
  free : Phase
  writing : ℕ → Phase
  full : Phase
  reading : ℕ → Phase

pub record Ghost : Type 0 where
  pub round : ℕ → ℕ
  pub phase : ℕ → Phase

abbrev pub set_cell : Ghost → ℕ → ℕ → Phase → Ghost
set_cell g i r ph = record { round = upd g.round i r; phase = upd g.phase i ph }

pub upd_same : {A : Type 0} (f : ℕ → A) (i : ℕ) (x : A) → upd f i x i ≡ x
upd_same f i x = let on : (i == i) ≡ true = ground arith in rw on refl

pub upd_other : {A : Type 0} (f : ℕ → A) (i : ℕ) (x : A) (j : ℕ) → j ≢ i → upd f i x j ≡ f j
upd_other f i x j h = let off : (j == i) ≡ false = ground arith in rw off refl

pub dif-zero : (a b : ℕ) → a < 2 ^ 63 → b < 2 ^ 63 → eq_ℤ (dif a b) (pos 0) ≡ true → a ≡ b
unfolding dif to_i64 to_u64
dif-zero a b h k e = ground arith

abbrev pub CellOk : Mpmc → Log → ℕ → ℕ → Phase → Type 0
CellOk q l i r free = (q.seq i ≡ r) × (q.enq ≤ r)
CellOk q l i r (writing t) = (q.seq i ≡ r) × (q.deq ≤ r) × (r < q.enq)
CellOk q l i r full = (q.seq i ≡ r + 1) × (q.deq ≤ r) × (r < q.enq) × (q.val i ≡ l.ticket r)
CellOk q l i r (reading t) = (q.seq i ≡ r + 1) × (r < q.deq)

-- A cell serves a position of its own, and the one before it has been taken, the one after it not
-- been claimed.
pub record Cell (q : Mpmc) (l : Log) (i r : ℕ) (ph : Phase) : Type 0 where
  pub own : r % (q.mask + 1) ≡ i
  pub before_taken : r < q.deq + (q.mask + 1)
  pub after_unclaimed : q.enq ≤ r + (q.mask + 1)
  pub ok : CellOk q l i r ph

abbrev pub NotIn : ℕ → List (ℕ × Option Record) → Type 0
NotIn p [] = Unit {0}
NotIn p (x ∷ xs) = (p ≢ x.0) × NotIn p xs

-- No position is there twice.
abbrev pub Apart : List (ℕ × Option Record) → Type 0
Apart [] = Unit {0}
Apart (x ∷ xs) = NotIn x.0 xs × Apart xs

-- What was found at a position is the record of the thread that claimed it.
abbrev pub TakenOk : Mpmc → Log → ℕ × Option Record → Type 0
TakenOk q l x = (x.0 < q.deq) × (x.1 ≡ l.ticket x.0)

pub record Core (q : Mpmc) (l : Log) (g : Ghost) : Type 0 where
  pub two : 1 ≤ q.mask
  pub deq_le : q.deq ≤ q.enq
  pub enq_le : q.enq ≤ q.deq + (q.mask + 1)
  pub counted : q.enq ≡ l.claims
  pub written : (p : ℕ) → p < l.claims → (v : Record) × (l.ticket p ≡ some v)
  pub cells : (i : ℕ) → i < q.mask + 1 → Cell q l i (g.round i) (g.phase i)
  pub taken : All (TakenOk q l) l.taken
  pub apart : Apart l.taken

-- What holds where a thread is: the cell is its own between its compare-and-swap and its store, and
-- the number it has seen is still there as long as the cursor has not moved.
abbrev pub PcOk : Mpmc → Log → Ghost → ℕ → Pc → Type 0
PcOk q l g t idle = Unit {0}
PcOk q l g t (enqueued b) = Unit {0}
PcOk q l g t (dequeued v b) = Unit {0}
PcOk q l g t (entering v) = Unit {0}
PcOk q l g t (enqueuing v p) = p ≤ q.enq
PcOk q l g t (claiming v p) =
    (p ≤ q.enq) × (q.enq ≡ p → (g.phase (slot q p) ≡ free) × (g.round (slot q p) ≡ p))
PcOk q l g t (filling v p) =
    (g.phase (slot q p) ≡ writing t)
    × (g.round (slot q p) ≡ p)
    × (p < q.enq)
    × (l.ticket p ≡ some v)
PcOk q l g t (publishing v p) =
    (g.phase (slot q p) ≡ writing t)
    × (g.round (slot q p) ≡ p)
    × (p < q.enq)
    × (l.ticket p ≡ some v)
    × (q.val (slot q p) ≡ some v)
PcOk q l g t leaving = Unit {0}
PcOk q l g t (dequeuing p) = p ≤ q.deq
PcOk q l g t (taking p) =
    (p ≤ q.deq) × (q.deq ≡ p → (g.phase (slot q p) ≡ full) × (g.round (slot q p) ≡ p))
PcOk q l g t (emptying p) =
    (g.phase (slot q p) ≡ reading t)
    × (g.round (slot q p) ≡ p)
    × (p < q.enq)
    × (q.val (slot q p) ≡ l.ticket p)
    × NotIn p l.taken
PcOk q l g t (releasing p v) = (g.phase (slot q p) ≡ reading t) × (g.round (slot q p) ≡ p)

-- What a step of the thread `t` leaves to the other threads.
module _ (q : Mpmc) (l : Log) (g : Ghost) where
  module _ (seq' : ℕ → ℕ) (val' : ℕ → Option Record) (enq' deq' : ℕ) (l' : Log) (g' : Ghost) where
    abbrev pub after : Mpmc
    after = record q { seq = seq'; val = val'; enq = enq'; deq = deq' }

    pub record Frame (t : ℕ) : Type 0 where
      pub enq_up : q.enq ≤ enq'
      pub deq_up : q.deq ≤ deq'
      pub frees :
          (i : ℕ) → enq' ≡ q.enq → g.phase i ≡ free → (g'.phase i ≡ free) × (g'.round i ≡ g.round i)
      pub fulls :
          (i : ℕ) → deq' ≡ q.deq → g.phase i ≡ full → (g'.phase i ≡ full) × (g'.round i ≡ g.round i)
      pub writes :
          (u i : ℕ)
          → u ≢ t
          → g.phase i ≡ writing u
          → (g'.phase i ≡ writing u) × (g'.round i ≡ g.round i) × (val' i ≡ q.val i)
      pub reads :
          (u i : ℕ)
          → u ≢ t
          → g.phase i ≡ reading u
          → (g'.phase i ≡ reading u) × (g'.round i ≡ g.round i) × (val' i ≡ q.val i)
      pub tickets : (p : ℕ) → p < q.enq → l'.ticket p ≡ l.ticket p
      pub untaken :
          (u i : ℕ)
          → u ≢ t
          → i < q.mask + 1
          → g.phase i ≡ reading u
          → NotIn (g.round i) l.taken
          → NotIn (g.round i) l'.taken

    pub PcOk-frame : (t u : ℕ) (pc : Pc) → u ≢ t → Frame t → PcOk q l g u pc → PcOk after l' g' u pc
    PcOk-frame t u idle o f h = h
    PcOk-frame t u (enqueued b) o f h = h
    PcOk-frame t u (dequeued v b) o f h = h
    PcOk-frame t u (entering v) o f h = h
    PcOk-frame t u (enqueuing v p) o f h = omega (arith, f.enq_up)
    PcOk-frame t u (claiming v p) o f h = (
      omega (arith, h.0, f.enq_up),
      λ e.
          let same : enq' ≡ q.enq = omega (arith, h.0, f.enq_up) in
          let known = h.1 (sym same ∙ e) in
          let kept = f.frees (slot q p) same known.0 in (kept.0, kept.1 ∙ known.1),
    )
    PcOk-frame t u (filling v p) o f h =
        let kept = f.writes u (slot q p) o h.0 in
        (kept.0, kept.1 ∙ h.1, omega (arith, h.2, f.enq_up), f.tickets p h.2 ∙ h.3)
    PcOk-frame t u (publishing v p) o f h =
        let kept = f.writes u (slot q p) o h.0 in
        (kept.0, kept.1 ∙ h.1, omega (arith, h.2, f.enq_up), f.tickets p h.2 ∙ h.3, kept.2 ∙ h.4)
    PcOk-frame t u leaving o f h = h
    PcOk-frame t u (dequeuing p) o f h = omega (arith, f.deq_up)
    PcOk-frame t u (taking p) o f h = (
      omega (arith, h.0, f.deq_up),
      λ e.
          let same : deq' ≡ q.deq = omega (arith, h.0, f.deq_up) in
          let known = h.1 (sym same ∙ e) in
          let kept = f.fulls (slot q p) same known.0 in (kept.0, kept.1 ∙ known.1),
    )
    PcOk-frame t u (emptying p) o f h =
        let kept = f.reads u (slot q p) o h.0 in
        let away : NotIn (g.round (slot q p)) l.taken =
          subst (λ r. NotIn r l.taken) (sym h.1) h.4 in
        (
          kept.0,
          kept.1 ∙ h.1,
          omega (arith, h.2, f.enq_up),
          kept.2 ∙ h.3 ∙ sym (f.tickets p h.2),
          subst (λ r. NotIn r l'.taken) h.1
              (f.untaken u (slot q p) o (mod-lt p (omega arith)) h.0 away),
        )
    PcOk-frame t u (releasing p v) o f h =
        let kept = f.reads u (slot q p) o h.0 in (kept.0, kept.1 ∙ h.1)
