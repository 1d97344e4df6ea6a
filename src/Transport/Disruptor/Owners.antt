-- ===== src/Transport/Disruptor/Owners.antt =====
-- Whose cell it is: one that a thread is writing or taking out is the one that the thread is at.
use logger.Base.{
  ℕ, ◌≡◌, ◌≢◌, sym, ap, ◌∙◌, ◌⊎◌, inl, inr, Bool-cases, Option, none, some, ◌==◌, arith,
}
use logger.Transport.Disruptor.{Mpmc, slot, Pc, filling, publishing, emptying, releasing}
use logger.Transport.Disruptor.Cells.{Phase, free, writing, full, reading, Ghost, set_cell}

abbrev pub owner : Phase → Option ℕ
owner free = none
owner (writing t) = some t
owner full = none
owner (reading t) = some t

abbrev pub at_cell : Mpmc → Pc → Option ℕ
at_cell q (filling v p) = some (slot q p)
at_cell q (publishing v p) = some (slot q p)
at_cell q (emptying p) = some (slot q p)
at_cell q (releasing p v) = some (slot q p)
at_cell q _ = none

-- A step of the thread `t`: a cell is owned by it as the one that it is at then, or by another
-- thread as before.
abbrev pub Owned : Mpmc → Mpmc → Ghost → Ghost → ℕ → Pc → Pc → Type 0
Owned q q' g g' t pc pc' =
    ((i : ℕ) → owner (g.phase i) ≡ some t → at_cell q pc ≡ some i)
    → (i u : ℕ) → owner (g'.phase i) ≡ some u
    → ((u ≡ t) × (at_cell q' pc' ≡ some i)) ⊎ ((u ≢ t) × (owner (g.phase i) ≡ some u))

module _ (q q' : Mpmc) (g : Ghost) (t : ℕ) (pc pc' : Pc) where
  kept_cell :
      (i u : ℕ)
      → at_cell q pc ≢ some i
      → ((i : ℕ) → owner (g.phase i) ≡ some t → at_cell q pc ≡ some i)
      → owner (g.phase i) ≡ some u
      → (u ≢ t) × (owner (g.phase i) ≡ some u)
  kept_cell i u off own e = (λ same. off (own i (e ∙ ap some same)), e)

  pub stays-Owned : at_cell q pc ≡ none → Owned q q' g g t pc pc'
  stays-Owned away own i u e = inr (kept_cell i u (λ x. cc) own e)

  pub set-Owned :
      (i r : ℕ) (new : Phase)
      → (at_cell q pc ≡ none) ⊎ (at_cell q pc ≡ some i)
      → (owner new ≡ none) ⊎ ((owner new ≡ some t) × (at_cell q' pc' ≡ some i))
      → Owned q q' g (set_cell g i r new) t pc pc'
  set-Owned i r new was is own j u e = elim (Bool-cases (j == i)) [
    | inl same ↦
        let here : j ≡ i = ground arith in
        let e' : owner new ≡ some u = rw same at e in
        inl (elim is [ inl gone ↦ cc | inr mine ↦ (cc, mine.1 ∙ ap some (sym here)) ])
    | inr other ↦
        let away : j ≢ i = ground arith in
        let e' : owner (g.phase j) ≡ some u = rw other at e in
        inr (kept_cell j u (λ x. elim was [ inl gone ↦ cc | inr mine ↦ away cc ]) own e')
  ]
