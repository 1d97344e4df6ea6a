-- ===== src/Transport/Disruptor/Complete.antt =====
-- No position is lost: one that has been claimed for taking is taken.
use logger.Base.{
  ℕ, ◌+◌, ◌<◌, ◌≤◌, ◌≡◌, ◌⊎◌, Bool, true, false, Option, List, [], ◌∷◌, if◌then◌else◌, ◌==◌,
}
use logger.Record.{Record}
use logger.Transport.Disruptor.{slot, Log, System, Pc, emptying}

abbrev pub has : ℕ → List (ℕ × Option Record) → Bool
has p [] = false
has p (x ∷ xs) = if x.0 == p then true else has p xs

-- A position behind the cursor has been taken out, or a thread is at it.
abbrev Known : Log → (ℕ → Pc) → ℕ → Type 0
Known l pc p = (has p l.taken ≡ true) ⊎ ((t : ℕ) × (pc t ≡ emptying p))

record Complete (s : System) : Type 0 where
  known : (p : ℕ) → p < s.queue.deq → Known s.log s.pc p

-- The record of a position is in its cell, with the number by which a reader finds it.
abbrev pub InCell : System → ℕ → Type 0
InCell s p =
    (s.queue.deq ≤ p)
    × (s.queue.seq (slot s.queue p) ≡ p + 1)
    × (s.queue.val (slot s.queue p) ≡ s.log.ticket p)
