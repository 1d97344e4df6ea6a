-- ===== src/Processor/Dedup/Account.antt =====
-- No record is suppressed in silence: what the stage drops, it reports or still has to report.
use logger.Base.{
  ℕ, ◌+◌, ◌^◌, ◌≤◌, ◌<◌, ◌≡◌, refl, ◌∙◌, Option, none, some, List, [], ◌∷◌, ◌++◌, Bytes, bytes_eq,
  if◌then◌else◌, Bool-cases, inl, inr, arith, length, ltb, bytes, pos, to_u64,
}
use logger.Field.{Time, Duration, Field, unsigned, int_field, zero_minus_one}
use logger.Record.{Record}
use logger.Processor.{ProcError}
use logger.Processor.Dedup.{
  DedupState, DedupProcessor, new_dedup_processor, state_of, put_state, key_of, is_recent, annotate,
  process,
}

-- The suppressed records that no record has reported yet.
abbrev pub pending : List (Bytes × DedupState) → ℕ
pending [] = 0
pending ((k, st) ∷ rest) = st.suppressed + pending rest

pending-put_state :
    (seen : List (Bytes × DedupState)) (key : Bytes) (new : DedupState)
    → pending (put_state seen key new) + (state_of seen key).suppressed
      ≡ pending seen + new.suppressed
unfolding put_state state_of
pending-put_state [] key new = omega arith
pending-put_state ((k, st) ∷ rest) key new = elim (Bool-cases (bytes_eq k key)) [
  | inl e ↦ rw e (omega arith)
  | inr e ↦ rw e (omega (arith, pending-put_state rest key new))
]

abbrev pub one_if_dropped : Option ProcError → ℕ
one_if_dropped none = 0
one_if_dropped (some e) = 1

at_most_one : (o : Option ProcError) → one_if_dropped o ≤ 1
at_most_one none = omega arith
at_most_one (some e) = omega arith

state_of-le :
    (seen : List (Bytes × DedupState)) (key : Bytes) → (state_of seen key).suppressed ≤ pending seen
unfolding state_of
state_of-le [] key = omega arith
state_of-le ((k, st) ∷ rest) key = elim (Bool-cases (bytes_eq k key)) [
  | inl e ↦ rw e (omega arith)
  | inr e ↦ rw e (omega (arith, state_of-le rest key))
]

-- The numbers that the fields `deduped_count` of a record add up to.
abbrev pub reports : List Field → ℕ
reports [] = 0
reports (f ∷ fs) = (if bytes_eq f.key (bytes "deduped_count") then f.num else 0) + reports fs

reports-append : (fs gs : List Field) → reports (fs ++ gs) ≡ reports fs + reports gs
reports-append [] gs = omega arith
reports-append (f ∷ fs) gs = omega (arith, reports-append fs gs)

reports-annotate :
    (r : Record) (n : ℕ) → n < 2 ^ 64 → reports (annotate r n).fields ≡ reports r.fields + n
unfolding annotate int_field to_u64 bytes_eq zero_minus_one
reports-annotate r n h = elim (Bool-cases (ltb 0 n)) [
  | inl e ↦ rw e (
      reports-append r.fields (int_field (unsigned 64) (bytes "deduped_count") (pos n) ∷ [])
      ∙ omega arith)
  | inr e ↦ rw e (ground arith)
]

-- What a record reports if it passes.
abbrev pub passed_reports : Option ProcError → Record → ℕ
passed_reports none r = reports r.fields
passed_reports (some e) r = 0

-- The run of the stage over records and their times: how many it drops, what the records that pass
-- report together, and the stage after it.
pub run : DedupProcessor → List (Record × Time) → ℕ × ℕ × DedupProcessor
run d [] = (0, 0, d)
run d ((r, now) ∷ rest) =
    let (err, r', d') = process d r now in
    let (dropped, reported, d'') = run d' rest in
    (one_if_dropped err + dropped, passed_reports err r' + reported, d'')

process-pending :
    (d : DedupProcessor) (r : Record) (now : Time)
    → reports r.fields ≡ 0
    → pending d.seen + 1 < 2 ^ 64
    → let (err, r', d') = process d r now in
      pending d'.seen + passed_reports err r' ≡ pending d.seen + one_if_dropped err
unfolding process
process-pending d r now none_yet h =
    let st = state_of d.seen (key_of r) in
    let small = state_of-le d.seen (key_of r) in
    elim (Bool-cases (is_recent d st now)) [
      | inl e ↦ rw e (omega (arith, small, pending-put_state d.seen (key_of r) _))
      | inr e ↦ rw e (
          omega (
            arith,
            reports-annotate r st.suppressed (omega (arith, small)),
            pending-put_state d.seen (key_of r) (record { last = now; suppressed = 0 }),
          ))
    ]

-- Records that carry no count of their own.
abbrev pub AllPlain : List (Record × Time) → Type 0
AllPlain [] = Unit {0}
AllPlain ((r, now) ∷ rest) = (reports r.fields ≡ 0) × AllPlain rest

run-pending :
    (d : DedupProcessor) (rs : List (Record × Time))
    → AllPlain rs
    → pending d.seen + length rs < 2 ^ 64
    → let (dropped, reported, d') = run d rs in
      pending d'.seen + reported ≡ pending d.seen + dropped
unfolding run
run-pending d [] plain h = refl
run-pending d ((r, now) ∷ rest) plain h =
    let one = process-pending d r now plain.0 (omega arith) in
    let bound : one_if_dropped (process d r now).0 ≤ 1 = at_most_one (process d r now).0 in
    omega
      (arith, one, bound, run-pending (process d r now).2 rest plain.1 (omega (arith, one, bound)))

-- No record is suppressed in silence. Over any records that carry no field `deduped_count` of their
-- own, fewer than 2^64, at any times: the number that a new stage drops is what the fields
-- `deduped_count` of the records that pass add up to, and what is still to be reported under the
-- keys.
pub run_reports_dropped :
    (window : Duration) (rs : List (Record × Time))
    → AllPlain rs
    → length rs < 2 ^ 64
    → let (dropped, reported, d) = run (new_dedup_processor window) rs in
      pending d.seen + reported ≡ dropped
unfolding new_dedup_processor
run_reports_dropped window rs plain h =
    omega (arith, run-pending (new_dedup_processor window) rs plain (omega arith))
