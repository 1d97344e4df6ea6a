-- ===== src/Tests/Stages.antt =====
-- Processors, sinks, counters and loggers.
use logger.Base.{
  ℕ, ◌<◌, ◌≡◌, ◌≢◌, ◌↔◌, refl, ◌+◌, ◌*◌, ◌++◌, ◌^◌, inl, inr, true, false, Option, none, some, List,
  [], ◌∷◌, Bytes, bytes, arith, pos,
}
use logger.Level.{level_trace, level_info, level_error}
use logger.Field.{Time, Field, AnyVal, string_field}
use logger.Record.{Record, blank}
use logger.Processor.{Processor, drop, run_pipeline}
use logger.Processor.Dedup.{new_dedup_processor}
use logger.Processor.Dedup.Account.{pending, run_reports_dropped}
use logger.Processor.Dedup.Account
use logger.Logger.Slog.{
  Attrs, no_attrs, attr, handler, handle, with_attrs, with_group, group, SlogRecord,
}
use logger.Logger.Slog
use logger.Logger.Slog.Contract.{joined, handle-with_group}
use logger.Processor.Sample.{new_sample_processor, kept_of, run, run_exact}
use logger.Processor.Path.{PathRedactor, mask, hash, new_path_redactor, seg_match, split}
use logger.Processor.Path
use logger.Processor.Path.Match.{Matches, seg_match_iff}
use logger.Processor.Path.Stage.{path_process-redacted, path_process_hides}
use logger.Processor.Path.Stage
use logger.Sink.{Error, Sink, fanout}
use logger.Sink.Isolation.{Act, Parts, parts, noting, failures, state_after, fanout_isolates}
use logger.Metrics.{zero_metrics}
use logger.Transport.{sync_transport}
use logger.Logger.{Runtime, Logger, State, enabled, send, finish, log}
use logger.Logger.Counts.{
  Call, message, seen, perform, perform_all, enabled_calls, perform_all_counts,
}

abbrev password : Bytes
password = bytes "password"

-- A record with a secret and a record with another one.
abbrev secret : Bytes → Record
secret s = record blank {
  level = level_info;
  fields = string_field password s ∷ string_field (bytes "user") (bytes "ada") ∷ [];
}

abbrev sum8 : Bytes → Bytes
sum8 s = bytes "00"

abbrev sprint : AnyVal → Bytes
sprint v = []

abbrev redactor : PathRedactor
redactor = new_path_redactor mask [] (bytes "pass*" ∷ password ∷ [])

path_process-redacted_example :
    (Path.process sum8 sprint redactor (secret (bytes "a"))).fields
    ≡ Stage.redacted sum8 sprint redactor (secret (bytes "a")).fields
path_process-redacted_example = path_process-redacted sum8 sprint redactor (secret (bytes "a"))

masks : redactor.strategy ≢ hash
unfolding new_path_redactor
masks = λ e. cc

path_process_hides_example :
    (Path.process sum8 sprint redactor (secret (bytes "a"))).fields
    ≡ (Path.process sum8 sprint redactor (secret (bytes "b"))).fields
unfolding new_path_redactor split string_field Path.matches
path_process_hides_example =
    path_process_hides sum8 sprint redactor (secret (bytes "a")) (secret (bytes "b")) masks
      (inr (refl, refl), (inl refl, tt))

abbrev pattern_segments : List Bytes
pattern_segments = bytes "user" ∷ bytes "*" ∷ bytes "**" ∷ []

abbrev key_segments : List Bytes
key_segments = bytes "user" ∷ bytes "card" ∷ bytes "number" ∷ []

seg_match_iff_example :
    (seg_match pattern_segments key_segments ≡ true) ↔ Matches pattern_segments key_segments
seg_match_iff_example = seg_match_iff pattern_segments key_segments

run_exact_example :
    let (kept, p) = run (new_sample_processor 1 2) (level_info ∷ level_info ∷ level_info ∷ []) in
    (kept ≡ kept_of 1 2 3) × (p.dropped + kept ≡ 3)
run_exact_example =
    run_exact 1 2 (level_info ∷ level_info ∷ level_info ∷ []) (omega arith) (omega arith)
      (omega arith)

-- A processor that counts its calls, and one that drops every record.
abbrev counting : Processor ℕ
counting ctx r w = (none, r, w + 1)

abbrev dropping : Processor ℕ
dropping ctx r w = (some drop, r, w + 10)

-- A sink that counts the records it gets, and two that count their own and may fail.
abbrev tally : Sink ℕ
tally = record { emit = λ r w. (none, w + 1); sync = λ w. (none, w); close = λ w. (none, w) }

abbrev tallying : Option Error → Act ℕ
tallying e r x = (e, x + 1)

abbrev full_disk : List (Act ℕ)
full_disk = tallying (some (bytes "disk full")) ∷ tallying none ∷ []

abbrev counted : Parts ℕ
counted = record { state = λ i. 10 * i; noted = [] }

fanout_isolates_example :
    let out = (fanout (parts 0 full_disk) (noting true)).emit blank counted in
    (out.0 ≡ none)
    × (out.1.state 1 ≡ state_after 0 full_disk blank counted.state 1)
    × (out.1.noted ≡ counted.noted ++ failures true 0 full_disk blank counted.state)
fanout_isolates_example = fanout_isolates true full_disk blank counted 1

abbrev runtime : Runtime ℕ
runtime = record { time_now = λ w. pos w; callers = λ skip w. skip }

abbrev plain : Logger ℕ
plain = record {
  leveler = λ w. level_info;
  processors = counting ∷ [];
  transport = sync_transport tally;
  bound = [];
  add_caller = true;
  caller_skip = 0;
  has_metrics = true;
}

abbrev state : State ℕ
state = record { metrics = zero_metrics; world = 0 }

abbrev calls : List Call
calls = message none level_error (bytes "a") [] ∷ message none level_trace (bytes "b") [] ∷ []

few_calls : seen state.metrics + enabled_calls runtime plain calls state < 2 ^ 64
unfolding enabled_calls perform log enabled send finish run_pipeline
few_calls = omega arith

perform_all_counts_example :
    seen (perform_all runtime plain calls state).metrics
    ≡ seen state.metrics + enabled_calls runtime plain calls state
perform_all_counts_example = perform_all_counts runtime plain calls state refl few_calls

trace_is_off : enabled plain level_trace state.world ≡ false
unfolding enabled
trace_is_off = refl

abbrev user : List Field
user = string_field (bytes "user") (bytes "ada") ∷ []

-- Three like records, two of them within a window.
abbrev repeated : List (Record × Time)
repeated = (blank, pos 10) ∷ (blank, pos 12) ∷ (blank, pos 90) ∷ []

run_reports_dropped_example :
    let (dropped, reported, d) = Account.run (new_dedup_processor (pos 50)) repeated in
    pending d.seen + reported ≡ dropped
run_reports_dropped_example = run_reports_dropped (pos 50) repeated (omega arith) (omega arith)

abbrev bound : Attrs
bound = attr (bytes "user") (Slog.string (bytes "ada")) no_attrs

abbrev slogged : SlogRecord
slogged = record { time = pos 5; level = pos 0; message = bytes "a"; attrs = bound }

handle-with_group_example :
    handle (with_group (with_attrs (handler plain) bound) (bytes "req")) none slogged state
    ≡ handle
        (handler plain)
        none
        (record slogged {
          attrs = joined bound (attr (bytes "req") (group slogged.attrs) no_attrs);
        })
        state
handle-with_group_example = handle-with_group (handler plain) bound (bytes "req") none slogged state
