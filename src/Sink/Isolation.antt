-- ===== src/Sink/Isolation.antt =====
-- One sink's failure is no other sink's: a fan-out over sinks that each have a part of the world of
-- their own, with errors that are noted or not.
use logger.Base.{
  ℕ, suc, ◌<◌, ◌≡◌, refl, sym, ap, ◌∙◌, Bool, true, false, Bool-cases, inl, inr, Option, none, some,
  List, [], ◌∷◌, ◌++◌, append_assoc, append-nil, if◌then◌else◌, ◌==◌, arith,
}
use logger.Record.{Record}
use logger.Sink.{Error, Sink, OnError, report, emit_each, fanout}

-- The state of each sink, by its index, and the errors that the handler was given, in order.
pub record Parts (X : Type 0) : Type 0 where
  pub state : ℕ → X
  pub noted : List (ℕ × Error)

-- What a sink does to its own state, and the error that it returns.
abbrev pub Act : Type 0 → Type 0
Act X = Record → X → Option Error × X

abbrev with_error : Bool → ℕ → Option Error → List (ℕ × Error) → List (ℕ × Error)
with_error on i none rest = rest
with_error true i (some e) rest = (i, e) ∷ rest
with_error false i (some e) rest = rest

module _ {X : Type 0} where
  abbrev pub with_state : ℕ → X → (ℕ → X) → ℕ → X
  with_state i x f j = if j == i then x else f j

  abbrev pub part : ℕ → Act X → Sink (Parts X)
  part i f = record {
    emit = λ r w. let (e, x) = f r (w.state i) in (e, record w { state = with_state i x w.state });
    sync = λ w. (none, w);
    close = λ w. (none, w);
  }

  unfoldable pub parts : ℕ → List (Act X) → List (Sink (Parts X))
  parts i [] = []
  parts i (f ∷ fs) = part i f ∷ parts (suc i) fs

  -- A handler that notes the sink and its error, or no handler.
  abbrev pub noting : Bool → OnError (Parts X)
  noting true = some (λ i e w. record w { noted = w.noted ++ ((i, e) ∷ []) })
  noting false = none

  -- The errors of the sinks, in the order of the sinks.
  unfoldable pub failures : Bool → ℕ → List (Act X) → Record → (ℕ → X) → List (ℕ × Error)
  failures on i [] r s = []
  failures on i (f ∷ fs) r s =
      let rest = failures on (suc i) fs r s in with_error on i (f r (s i)).0 rest

  -- The state of a sink after one record, or the same state if there is no such sink.
  abbrev acted : Option (Act X) → Record → X → X
  acted none r x = x
  acted (some f) r x = (f r x).1

  unfoldable pub state_after : ℕ → List (Act X) → Record → (ℕ → X) → ℕ → X
  state_after i [] r s j = s j
  state_after i (f ∷ fs) r s j =
      let rest = state_after (suc i) fs r s j in if j == i then (f r (s j)).1 else rest

  state_after_later :
      (i k : ℕ) (x : X) (fs : List (Act X)) (r : Record) (s : ℕ → X) (j : ℕ)
      → k < i
      → state_after i fs r (with_state k x s) j ≡ (if j == k then x else state_after i fs r s j)
  unfolding state_after
  state_after_later i k x [] r s j h = refl
  state_after_later i k x (f ∷ fs) r s j h = elim (Bool-cases (j == i)) [
    | inl e ↦ let off : (j == k) ≡ false = ground arith in rw (e, off) refl
    | inr e ↦ rw e (state_after_later (suc i) k x fs r s j (omega arith))
  ]

  failures_later :
      (on : Bool) (i k : ℕ) (x : X) (fs : List (Act X)) (r : Record) (s : ℕ → X)
      → k < i
      → failures on i fs r (with_state k x s) ≡ failures on i fs r s
  unfolding failures
  failures_later on i k x [] r s h = refl
  failures_later on i k x (f ∷ fs) r s h =
      let off : (i == k) ≡ false = ground arith in
      rw (off, failures_later on (suc i) k x fs r s (omega arith)) refl

  -- The world behind the handler's call.
  reported :
      (on : Bool) (i : ℕ) (e : Option Error) (w : Parts X) (rest : List (ℕ × Error))
      → ((report (noting on) i (e, w)).state ≡ w.state)
        × ((report (noting on) i (e, w)).noted ++ rest ≡ w.noted ++ with_error on i e rest)
  reported true i none w rest = (refl, refl)
  reported true i (some e) w rest = (refl, append_assoc w.noted ((i, e) ∷ []) rest)
  reported false i none w rest = (refl, refl)
  reported false i (some e) w rest = (refl, refl)

  emit_each-parts :
      (on : Bool) (i : ℕ) (fs : List (Act X)) (r : Record) (w : Parts X)
      → let out = emit_each (noting on) i (parts i fs) r w in
        ((j : ℕ) → out.state j ≡ state_after i fs r w.state j)
        × (out.noted ≡ w.noted ++ failures on i fs r w.state)
  unfolding emit_each parts state_after failures
  emit_each-parts on i [] r w = (λ j. refl, sym (append-nil w.noted))
  emit_each-parts on i (f ∷ fs) r w =
      let x = (f r (w.state i)).1 in
      let e = (f r (w.state i)).0 in
      let w' : Parts X = record w { state = with_state i x w.state } in
      let rest = emit_each-parts on (suc i) fs r (report (noting on) i (e, w')) in
      let behind = reported on i e w' (failures on (suc i) fs r w.state) in
      (
        λ j.
            rest.0 j
            ∙ ap (λ s. state_after (suc i) fs r s j) behind.0
            ∙ state_after_later (suc i) i x fs r w.state j (omega arith)
            ∙ elim (Bool-cases (j == i)) [
              | inl same ↦ let is : j ≡ i = ground arith in rw (same, is) refl
              | inr other ↦ rw other refl
            ],
        rest.1
            ∙ ap (λ s. (report (noting on) i (e, w')).noted ++ failures on (suc i) fs r s) behind.0
            ∙ ap (λ l. (report (noting on) i (e, w')).noted ++ l)
                (failures_later on (suc i) i x fs r w.state (omega arith))
            ∙ behind.1,
      )

  -- Whatever errors the sinks of a fan-out return, and whether there is a handler that notes them:
  -- every sink is given the record once and acts on its own state just as it would alone, and no
  -- state but the sinks' is changed; the handler is given exactly the errors returned, in the order
  -- of the sinks and with the sink of each; and the fan-out returns no error.
  pub fanout_isolates :
      (on : Bool) (fs : List (Act X)) (r : Record) (w : Parts X) (j : ℕ)
      → let out = (fanout (parts 0 fs) (noting on)).emit r w in
        (out.0 ≡ none)
        × (out.1.state j ≡ state_after 0 fs r w.state j)
        × (out.1.noted ≡ w.noted ++ failures on 0 fs r w.state)
  unfolding fanout
  fanout_isolates on fs r w j = let all = emit_each-parts on 0 fs r w in (refl, all.0 j, all.1)
