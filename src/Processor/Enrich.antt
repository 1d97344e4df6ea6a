-- ===== src/Processor/Enrich.antt =====
-- The stage of enrich.go that adds a context's fields and its trace. An extractor is code of the
-- caller: a function from a context to a trace id and a span id, if there are any.
use logger.Base.{Option, none, some, List, [], ◌∷◌, ◌++◌, Bytes, bytes}
use logger.Field.{Field, string_field}
use logger.Record.{Record, Context}

abbrev pub TraceExtractor : Type 0
TraceExtractor = Context → Option (Bytes × Bytes)

pub record EnrichProcessor : Type 0 where
  pub extractors : List TraceExtractor
  pub trace_key : Bytes
  pub span_key : Bytes

unfoldable pub new_enrich_processor : List TraceExtractor → EnrichProcessor
new_enrich_processor ex = record {
  extractors = ex;
  trace_key = bytes "trace_id";
  span_key = bytes "span_id";
}

abbrev pub or_else : Bytes → Bytes → Bytes
or_else default [] = default
or_else default (c ∷ cs) = c ∷ cs

-- A string field, unless its text is empty.
unfoldable pub field_of : Bytes → Bytes → List Field
field_of key [] = []
field_of key (c ∷ cs) = string_field key (c ∷ cs) ∷ []

-- The loop over the extractors, which the first one that finds a trace ends.
unfoldable pub trace_of : List TraceExtractor → Context → Option (Bytes × Bytes)
trace_of [] ctx = none
trace_of (ex ∷ exs) ctx =
    let rest = trace_of exs ctx in elim (ex ctx) [ some ids ↦ some ids | none ↦ rest ]

unfoldable pub trace_fields : EnrichProcessor → Option (Bytes × Bytes) → List Field
unfolding field_of
trace_fields e none = []
trace_fields e (some (tid, sid)) =
    field_of (or_else (bytes "trace_id") e.trace_key) tid
    ++ field_of (or_else (bytes "span_id") e.span_key) sid

unfoldable pub enrich : EnrichProcessor → Record → Option Context → Record
unfolding trace_of trace_fields
enrich e r none = r
enrich e r (some ctx) = record r {
  fields = (r.fields ++ ctx.bound) ++ trace_fields e (trace_of e.extractors ctx);
}

-- `Process`, which always returns nil: the context of the call, or else the record's own.
unfoldable pub process : EnrichProcessor → Option Context → Record → Record
unfolding enrich
process e none r = enrich e r r.ctx
process e (some ctx) r = enrich e r (some ctx)
