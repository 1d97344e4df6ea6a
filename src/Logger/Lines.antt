-- ===== src/Logger/Lines.antt =====
-- The whole way from a call to a line: the logger that `New` makes without options, or a child of
-- it, which writes JSON to stderr.
use logger.Base.{
  ◌≡◌, refl, sym, ap, ◌∙◌, true, false, none, List, [], ◌∷◌, ◌++◌, append_assoc, append-nil, All,
  All-append, Bytes, if◌then◌else◌, Bool-cases, inl, inr, arith, leb_ℤ, ltb_ℤ,
}
use logger.Level.{level_info, level_trace}
use logger.Field.{Field}
use logger.Record.{Record, new_record}
use logger.Processor.{run_pipeline}
use logger.Sink.{Writer, writer_sink}
use logger.Transport.{sync_transport}
use logger.Metrics.{Metrics}
use logger.Encoder.{Formats}
use logger.Encoder.Json.Printable.{IsText, FieldIsText, RecordIsText, FormatsPrintable}
use logger.Audit.{trim_newlines, split_lines}
use logger.Audit.Chain.{split_lines-line}
use logger.Sink.HttpBatch.Bodies.{json_line}
use logger.Sink.HttpBatch.Bodies.Lines.{json_line-NoNewline}
use logger.Logger.{
  Runtime, Logger, State, new, apply_options, transport_of, with_fields, inherited, prepared,
  enabled, finish, send, log, log_at, event_at,
}
use logger.Logger.Counts.{
  Call, message, bridged, event, level_of, perform, perform_all, perform_disabled,
}
use logger.Logger.Presets.{default_sink}

-- The texts of a call are lists of bytes.
abbrev pub CallIsText : Call → Type 0
CallIsText (message ctx level msg fs) = IsText msg × All FieldIsText fs
CallIsText (bridged ctx t level msg fs) = IsText msg × All FieldIsText fs
CallIsText (event ctx level name fs) = IsText name × All FieldIsText fs

inherited-All :
    (bound fs : List Field)
    → All FieldIsText bound
    → All FieldIsText fs
    → All FieldIsText (inherited bound fs)
inherited-All [] fs b h = h
inherited-All (f ∷ bound) fs b h = All-append FieldIsText (f ∷ bound) fs b h

-- `stderr` is a file of bytes, whose end it is that is written to.
module _ (fm : Formats) (stderr : Writer Bytes) (rt : Runtime Bytes) (bound : List Field) where
  unfoldable pub plain_logger : Logger Bytes
  unfolding new with_fields default_sink
  plain_logger = with_fields (new (default_sink fm stderr) []) bound

  -- The record of a call, at a state of the world.
  abbrev pub record_of : Call → Bytes → Record
  record_of (message ctx level msg fs) w =
      record (prepared plain_logger ctx (rt.time_now w) level fs) { message = msg }
  record_of (bridged ctx t level msg fs) w = record (prepared plain_logger ctx t level fs) {
    message = msg;
  }
  record_of (event ctx level name fs) w =
      record (prepared plain_logger ctx (rt.time_now w) level fs) { event_name = name }

  -- The lines, without their line feeds, of the calls at INFO or above.
  unfoldable pub lines_of : List Call → Bytes → List Bytes
  unfolding json_line trim_newlines plain_logger
  lines_of [] w = []
  lines_of (c ∷ cs) w =
      let more = lines_of cs (w ++ json_line fm (record_of c w)) in
      let same = lines_of cs w in
      if leb_ℤ level_info (level_of c)
      then trim_newlines (json_line fm (record_of c w)) ∷ more
      else same

  record_of-RecordIsText :
      (c : Call) (w : Bytes) → All FieldIsText bound → CallIsText c → RecordIsText (record_of c w)
  unfolding plain_logger new_record with_fields new
  record_of-RecordIsText (message ctx level msg fs) w b h = record {
    message = h.0;
    event = tt;
    fields = inherited-All bound fs b h.1;
  }
  record_of-RecordIsText (bridged ctx t level msg fs) w b h = record {
    message = h.0;
    event = tt;
    fields = inherited-All bound fs b h.1;
  }
  record_of-RecordIsText (event ctx level name fs) w b h = record {
    message = tt;
    event = h.0;
    fields = inherited-All bound fs b h.1;
  }

  module _ (appends : (b w : Bytes) → stderr.write b w ≡ (none, w ++ b)) where
    perform_line :
        (c : Call) (st : State Bytes)
        → leb_ℤ level_info (level_of c) ≡ true
        → (perform rt plain_logger c st).world ≡ st.world ++ json_line fm (record_of c st.world)
    unfolding perform log log_at event_at send finish run_pipeline plain_logger new apply_options
        transport_of with_fields default_sink writer_sink sync_transport new_record json_line
    perform_line (message ctx level msg fs) st h =
        let off : ltb_ℤ level level_info ≡ false = ground arith in
        let low : ltb_ℤ level level_trace ≡ false = ground arith in
        rw (off, low) (ap (λ o. o.1) (appends _ st.world))
    perform_line (bridged ctx t level msg fs) st h =
        let off : ltb_ℤ level level_info ≡ false = ground arith in
        let low : ltb_ℤ level level_trace ≡ false = ground arith in
        rw (off, low) (ap (λ o. o.1) (appends _ st.world))
    perform_line (event ctx level name fs) st h =
        let off : ltb_ℤ level level_info ≡ false = ground arith in
        let low : ltb_ℤ level level_trace ≡ false = ground arith in
        rw (off, low) (ap (λ o. o.1) (appends _ st.world))

    lines_grow :
        (h : FormatsPrintable fm) (b : All FieldIsText bound) (cs : List Call) (st : State Bytes)
        → All CallIsText cs
        → (rest : Bytes) × ((perform_all rt plain_logger cs st).world ≡ st.world ++ rest)
          × (split_lines rest ≡ lines_of cs st.world)
    unfolding perform_all lines_of
    lines_grow h b [] st t = ([], sym (append-nil st.world), unfold split_lines in refl)
    lines_grow h b (c ∷ cs) st t = elim (Bool-cases (leb_ℤ level_info (level_of c))) [
      | inl on ↦
          let r = record_of c st.world in
          let (clean, is) = json_line-NoNewline fm r h (record_of-RecordIsText c st.world b t.0) in
          let first = perform_line c st on in
          let (rest, grown, split) = lines_grow h b cs (perform rt plain_logger c st) t.1 in
          let line = trim_newlines (json_line fm r) in
          (
            line ++ (b'\n' ∷ rest),
            grown ∙ ap (λ w. w ++ rest) (first ∙ ap (λ x. st.world ++ x) is) ∙ simp append_assoc,
            split_lines-line line rest clean
                ∙ ap (λ x. line ∷ x) (split ∙ ap (lines_of cs) first)
                ∙ rw on refl,
          )
      | inr off ↦
          let same : perform rt plain_logger c st ≡ st =
            unfold enabled plain_logger new with_fields in
            perform_disabled rt plain_logger c st off in
          let (rest, grown, split) = lines_grow h b cs st t.1 in
          (
            rest,
            ap (λ s. (perform_all rt plain_logger cs s).world) same ∙ grown,
            split ∙ rw off refl,
          )
    ]

    -- Whatever the bytes of their texts, calls in a row on the logger that New makes without options,
    -- or on a child of it, write just one line each if they are at INFO or above and nothing
    -- otherwise, in order: what stderr then holds, split at its line feeds, are the JSON lines of
    -- the records of these calls, with the child's fields in front of their own. Used is that stderr
    -- appends what is written to it, and that the texts which Go's libraries write for numbers,
    -- times, files and JSON values hold no control byte.
    pub lines_of_calls :
        (cs : List Call) (m : Metrics)
        → FormatsPrintable fm
        → All FieldIsText bound
        → All CallIsText cs
        → split_lines (perform_all rt plain_logger cs (record { metrics = m; world = [] })).world
          ≡ lines_of cs []
    lines_of_calls cs m h b t =
        let (rest, grown, split) = lines_grow h b cs (record { metrics = m; world = [] }) t in
        ap split_lines grown ∙ split
