-- ===== src/Adapters/Otel.antt =====
-- contrib/otel/otel.go and extractor.go: a sink that hands a record on to an OpenTelemetry logger.
use logger.Base.{
  ℕ, Bool, true, false, Option, none, some, List, [], ◌∷◌, Bytes, if◌then◌else◌, ℤ, ltb_ℤ,
}
use logger.Level.{Level}
use logger.Level
use logger.Field.{Time, AnyVal, Field, value}
use logger.Record.{Record, Context, background}
use logger.Sink.{Sink}

-- The values of attributes that the sink makes, and the record that its setters fill.
pub data OtelValue : Type 0 where
  string : Bytes → OtelValue
  bool : Bool → OtelValue
  int64 : ℤ → OtelValue
  float64 : ℕ → OtelValue

pub record OtelRecord : Type 0 where
  pub timestamp : Time
  pub severity : ℤ
  pub severity_text : Bytes
  pub body : Bytes
  pub attributes : List (Bytes × OtelValue)

unfoldable pub severity_of : Level → ℤ
severity_of l = l

-- `toKV` on the value of the field; `sprint` is `fmt.Sprint`.
unfoldable pub kv_value : (AnyVal → Bytes) → AnyVal → OtelValue
kv_value sprint (AnyVal.string v) = OtelValue.string v
kv_value sprint (AnyVal.bool v) = OtelValue.bool v
kv_value sprint (AnyVal.int64 v) = OtelValue.int64 v
kv_value sprint (AnyVal.float64 v) = OtelValue.float64 v
kv_value sprint v = OtelValue.string (sprint v)

unfoldable pub to_kv : (AnyVal → Bytes) → Field → Bytes × OtelValue
unfolding kv_value value
to_kv sprint f = (f.key, kv_value sprint (value f))

unfoldable pub to_kvs : (AnyVal → Bytes) → List Field → List (Bytes × OtelValue)
unfolding to_kv
to_kvs sprint [] = []
to_kvs sprint (f ∷ fs) = to_kv sprint f ∷ to_kvs sprint fs

-- The record that `Emit` fills.
unfoldable pub otel_record : (AnyVal → Bytes) → Record → OtelRecord
unfolding to_kvs severity_of
otel_record sprint r = record {
  timestamp = r.time;
  severity = severity_of r.level;
  severity_text = logger.Level.string r.level;
  body = r.message;
  attributes = to_kvs sprint r.fields;
}

abbrev otel_ctx : Option Context → Context
otel_ctx none = background
otel_ctx (some ctx) = ctx

-- `lg` is the `Emit` of the OpenTelemetry logger.
unfoldable pub otel_sink :
    {W : Type 0} → (AnyVal → Bytes) → (Context → OtelRecord → W → W) → Level → Sink W
unfolding otel_record
otel_sink sprint lg min_lvl = record {
  emit = λ r w.
      (none, if ltb_ℤ r.level min_lvl then w else lg (otel_ctx r.ctx) (otel_record sprint r) w);
  sync = λ w. (none, w);
  close = λ w. (none, w);
}

-- What the extractor uses of a span context.
pub record SpanContext : Type 0 where
  pub valid : Bool
  pub trace_id : Bytes
  pub span_id : Bytes

-- `TraceExtractor`; `of_context` is `trace.SpanContextFromContext`.
unfoldable pub otel_trace_extractor : (Context → SpanContext) → Context → Bytes × Bytes × Bool
otel_trace_extractor of_context ctx =
    let sc = of_context ctx in if sc.valid then (sc.trace_id, sc.span_id, true) else ([], [], false)
