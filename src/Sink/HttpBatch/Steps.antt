-- ===== src/Sink/HttpBatch/Steps.antt =====
-- Every run of the batch sink, however callers, timer and requests interleave.
use logger.Base.{
  ℕ, zero, suc, ◌+◌, ◌%◌, ◌^◌, ◌≤◌, ◌<◌, ◌≡◌, refl, sym, subst, ap, ◌⊎◌, Bool, true, false, List,
  [], ◌∷◌, ◌++◌, All, All-append, length, length-append, inl, inr, arith, ℤ, pos_part, max,
}
use logger.Level.{Level}
use logger.Record.{Record, clone}
use logger.Sink.HttpBatch.{
  BatchSink, new_batch_sink, take_locked, kept, full, emit, close, add_dropped, System, initial,
  in_air, flush, Step, ignores, keeps, fills, flushes, closes, delivers, fails, Reach, here, next,
}

-- The number of records in some batches.
abbrev pub records_in : List (List Record) → ℕ
records_in [] = 0
records_in (b ∷ bs) = length b + records_in bs

records_in-append :
    (xs ys : List (List Record)) → records_in (xs ++ ys) ≡ records_in xs + records_in ys
records_in-append [] ys = omega arith
records_in-append (x ∷ xs) ys = omega (arith, records_in-append xs ys)

records_in-in_air :
    (b : List Record) (bs : List (List Record))
    → records_in (in_air b bs) ≡ records_in bs + length b
records_in-in_air [] bs = omega arith
records_in-in_air (r ∷ rs) bs = omega (arith, records_in-append bs ((r ∷ rs) ∷ []))

-- What a batch may be: not empty, and no longer than `MaxBatch`, which counts as 1 if it is less.
abbrev pub limit : ℤ → ℕ
limit m = max 1 (pos_part m)

abbrev pub Fits : ℤ → List Record → Type 0
Fits m b = (0 < length b) × (length b ≤ limit m)

pub record Inv (m : ℤ) (s : System) : Type 0 where
  pub same_max : s.sink.max_batch ≡ m
  pub counted : s.accepted ≡ s.delivered + s.lost + records_in s.in_flight + length s.sink.buf
  pub reported : s.sink.dropped ≡ s.lost % 2 ^ 64
  pub pending : 0 < length s.sink.buf → s.sink.timer ≡ true
  pub room : length s.sink.buf < limit m
  pub fitting : All (Fits m) s.in_flight
  pub emptied : s.sink.closed ≡ true → length s.sink.buf ≡ 0

emit_kept :
    (h g : BatchSink) (r : Record)
    → emit h r ≡ kept g
    → (g ≡ record h { buf = h.buf ++ (clone r ∷ []); timer = true })
      × (h.closed ≡ false)
      × (length h.buf + 1 < limit h.max_batch)
unfolding emit
emit_kept h g r e = ground (arith, length-append h.buf (clone r ∷ []))

emit_full :
    (h g : BatchSink) (r : Record) (batch : List Record)
    → emit h r ≡ full (batch, g)
    → (batch ≡ h.buf ++ (clone r ∷ [])) × (g ≡ record h { buf = []; timer = false })
unfolding emit
emit_full h g r batch e = ground arith

emit_full_room :
    (h g : BatchSink) (r : Record) (batch : List Record)
    → emit h r ≡ full (batch, g)
    → length h.buf < limit h.max_batch
    → Fits h.max_batch (h.buf ++ (clone r ∷ []))
emit_full_room h g r batch e room = omega (arith, length-append h.buf (clone r ∷ []))

keeps-Inv :
    (m : ℤ) (s : System) (r : Record)
    → Inv m s
    → s.sink.closed ≡ false
    → length s.sink.buf + 1 < limit s.sink.max_batch
    → Inv m (record s {
      sink = record s.sink { buf = s.sink.buf ++ (clone r ∷ []); timer = true };
      accepted = s.accepted + 1;
    })
keeps-Inv m s r v open_ short =
    let longer = length-append s.sink.buf (clone r ∷ []) in
    record {
      same_max = v.same_max;
      counted = omega (arith, v.counted, longer);
      reported = v.reported;
      pending = λ h. refl;
      room = omega (arith, longer, short, ap limit v.same_max);
      fitting = v.fitting;
      emptied = λ c. cc;
    }

in_air-Fits :
    (m : ℤ) (b : List Record) (bs : List (List Record))
    → length b < limit m
    → All (Fits m) bs
    → All (Fits m) (in_air b bs)
in_air-Fits m [] bs h v = v
in_air-Fits m (r ∷ rs) bs h v =
    All-append (Fits m) bs ((r ∷ rs) ∷ []) v ((omega arith, omega arith), tt)

All-without :
    (m : ℤ) (before after : List (List Record)) (b : List Record)
    → All (Fits m) (before ++ (b ∷ after))
    → All (Fits m) (before ++ after)
All-without m [] after b h = h.1
All-without m (x ∷ xs) after b h = (h.0, All-without m xs after b h.1)

records_in-without :
    (before after : List (List Record)) (b : List Record)
    → records_in (before ++ (b ∷ after)) ≡ records_in (before ++ after) + length b
records_in-without [] after b = omega arith
records_in-without (x ∷ xs) after b = omega (arith, records_in-without xs after b)

-- The buffer's records go into the air.
takes-Inv :
    (m : ℤ) (s : System) (c : Bool)
    → Inv m s
    → Inv m (flush s (s.sink.buf, record s.sink { buf = []; timer = false; closed = c }))
takes-Inv m s c v = record {
  same_max = v.same_max;
  counted = omega (arith, v.counted, records_in-in_air s.sink.buf s.in_flight);
  reported = v.reported;
  pending = λ h. absurd (omega arith);
  room = omega arith;
  fitting = in_air-Fits m s.sink.buf s.in_flight v.room v.fitting;
  emptied = λ d. refl;
}

fills-Inv :
    (m : ℤ) (s : System) (r : Record)
    → Inv m s
    → Fits s.sink.max_batch (s.sink.buf ++ (clone r ∷ []))
    → Inv m (record s {
      sink = record s.sink { buf = []; timer = false };
      in_flight = s.in_flight ++ ((s.sink.buf ++ (clone r ∷ [])) ∷ []);
      accepted = s.accepted + 1;
    })
fills-Inv m s r v fit =
    let batch = s.sink.buf ++ (clone r ∷ []) in
    let longer = length-append s.sink.buf (clone r ∷ []) in
    record {
      same_max = v.same_max;
      counted = omega (arith, v.counted, longer, records_in-append s.in_flight (batch ∷ []));
      reported = v.reported;
      pending = λ h. absurd (omega arith);
      room = omega arith;
      fitting =
          All-append (Fits m) s.in_flight (batch ∷ []) v.fitting
            (subst (λ k. Fits k batch) v.same_max fit, tt);
      emptied = λ d. refl;
    }

delivers-Inv :
    (m : ℤ) (s : System) (before after : List (List Record)) (batch : List Record)
    → Inv m s
    → s.in_flight ≡ before ++ (batch ∷ after)
    → Inv m (record s { in_flight = before ++ after; delivered = s.delivered + length batch })
delivers-Inv m s before after batch v e = record {
  same_max = v.same_max;
  counted = omega (arith, v.counted, ap records_in e, records_in-without before after batch);
  reported = v.reported;
  pending = v.pending;
  room = v.room;
  fitting = All-without m before after batch (subst (All (Fits m)) e v.fitting);
  emptied = v.emptied;
}

fails-Inv :
    (m : ℤ) (s : System) (before after : List (List Record)) (batch : List Record)
    → Inv m s
    → s.in_flight ≡ before ++ (batch ∷ after)
    → Inv m (record s {
      sink = add_dropped s.sink (length batch);
      in_flight = before ++ after;
      lost = s.lost + length batch;
    })
unfolding add_dropped
fails-Inv m s before after batch v e = record {
  same_max = v.same_max;
  counted = omega (arith, v.counted, ap records_in e, records_in-without before after batch);
  reported = omega (arith, v.reported);
  pending = v.pending;
  room = v.room;
  fitting = All-without m before after batch (subst (All (Fits m)) e v.fitting);
  emptied = v.emptied;
}

-- Every step keeps the invariant.
pub Step-Inv : {m : ℤ} {s t : System} → Step s t → Inv m s → Inv m t
unfolding take_locked close
Step-Inv (ignores r e) v = v
Step-Inv {m} {s} (keeps r h e) v =
    let (is, open_, short) = emit_kept s.sink h r e in rw is (keeps-Inv m s r v open_ short)
Step-Inv {m} {s} (fills r batch h e) v =
    let (these, is) = emit_full s.sink h r batch e in
    let fit =
      emit_full_room s.sink h r batch e
        (subst (λ k. length s.sink.buf < limit k) (sym v.same_max) v.room) in
    rw (these, is) (fills-Inv m s r v fit)
Step-Inv {m} {s} flushes v = takes-Inv m s s.sink.closed v
Step-Inv {m} {s} closes v = takes-Inv m s true v
Step-Inv {m} {s} (delivers before after batch a e ok) v = delivers-Inv m s before after batch v e
Step-Inv {m} {s} (fails before after batch a e bad) v = fails-Inv m s before after batch v e

pub Reach-Inv :
    (h : BatchSink) {s : System}
    → Inv h.max_batch (initial h)
    → Reach (initial h) s
    → Inv h.max_batch s
Reach-Inv h v here = v
Reach-Inv h v (next r st) = Step-Inv st (Reach-Inv h v r)

due : (n : ℕ) (timer : Bool) → (0 < n → timer ≡ true) → (n ≡ 0) ⊎ (timer ≡ true)
due zero timer h = inl refl
due (suc n) timer h = inr (h (omega arith))

open_or_empty : (n : ℕ) (closed : Bool) → (closed ≡ true → n ≡ 0) → (closed ≡ false) ⊎ (n ≡ 0)
open_or_empty n true h = inr (h refl)
open_or_empty n false h = inl refl

-- From a new sink with any `MaxBatch`, however calls, the timer and the requests interleave: every
-- accepted record is delivered, counted as dropped, in a batch in flight, or in the buffer, and
-- `Dropped` reports the number of the dropped ones modulo 2^64. No batch in flight is empty or
-- longer than `MaxBatch` (than 1, if that is less), the buffer is shorter, and while it holds a
-- record a flush is due; a closed sink holds none.
pub batches_accounted :
    (level : Level) (max_batch : ℤ) (s : System)
    → Reach (initial (record (new_batch_sink level) { max_batch = max_batch })) s
    → (s.accepted ≡ s.delivered + s.lost + records_in s.in_flight + length s.sink.buf)
      × (s.sink.dropped ≡ s.lost % 2 ^ 64)
      × All (Fits max_batch) s.in_flight
      × (length s.sink.buf < limit max_batch)
      × ((length s.sink.buf ≡ 0) ⊎ (s.sink.timer ≡ true))
      × ((s.sink.closed ≡ false) ⊎ (length s.sink.buf ≡ 0))
unfolding new_batch_sink
batches_accounted level max_batch s r =
    let h : BatchSink = record (new_batch_sink level) { max_batch = max_batch } in
    let start : Inv max_batch (initial h) = record {
      same_max = refl;
      counted = refl;
      reported = refl;
      pending = λ k. absurd (omega arith);
      room = omega arith;
      fitting = tt;
      emptied = λ k. refl;
    } in
    let v = Reach-Inv h start r in
    (v.counted, v.reported, v.fitting, v.room, due _ _ v.pending, open_or_empty _ _ v.emptied)
