-- ===== src/Sink/HttpBatch/Bodies.antt =====
-- The request bodies of sink_http.go, from the JSON line of each record.
pub mod Lines
use logger.Base.{
  ℕ, zero, suc, ◌+◌, ◌-◌, ◌/◌, ◌%◌, ◌^◌, Bool, true, false, List, [], ◌∷◌, ◌++◌, Bytes, bytes,
  if◌then◌else◌, ◌==◌, ltb, ltb_ℤ, digit, ℤ, pos, negsuc, to_i64, to_u64,
}
use logger.Level.{Level}
use logger.Buffer.{write_json_string}
use logger.Field.{unix_nano}
use logger.Record.{Record}
use logger.Audit.{trim_newlines}
use logger.Encoder.{Formats}
use logger.Encoder.Json.{new_json_encoder, encode}
use logger.Sink.HttpBatch.{BatchSink, new_batch_sink, with_header}

-- The loop of `itoa64`, with `f` rounds to go: it ends at the first number that is not positive.
pub digits_loop : ℕ → ℕ → Bytes → Bytes
digits_loop zero n acc = acc
digits_loop (suc f) n acc =
    let rest = digits_loop f (n / 10) (digit n ∷ acc) in if ltb 0 n then rest else acc

-- A positive `int64` has at most 19 digits; the array of the source has room for 20.
unfoldable pub loop_of : ℤ → Bytes
unfolding digits_loop
loop_of (pos n) = digits_loop 20 n []
loop_of (negsuc n) = []

-- `-n` on an `int64`
unfoldable pub negate : ℤ → ℤ
negate n = to_i64 ((2 ^ 64 - to_u64 n) % 2 ^ 64)

unfoldable pub itoa64 : ℤ → Bytes
itoa64 (pos n) = if n == 0 then bytes "0" else loop_of (pos n)
itoa64 (negsuc n) = b'-' ∷ loop_of (negate (negsuc n))

unfoldable pub json_line : Formats → Record → Bytes
json_line fm r = encode fm new_json_encoder [] r

-- `if i > 0 { b.WriteByte(',') }`
abbrev pub comma_at : ℕ → Bytes → Bytes
comma_at i b = if ltb 0 i then b ++ (b',' ∷ []) else b

unfoldable pub datadog_from : Formats → Bytes → ℕ → List Record → Bytes
unfolding json_line
datadog_from fm b i [] = b
datadog_from fm b i (r ∷ rs) =
    datadog_from fm (comma_at i b ++ trim_newlines (json_line fm r)) (i + 1) rs

unfoldable pub datadog_body : Formats → List Record → Bytes
unfolding datadog_from
datadog_body fm recs = datadog_from fm (b'[' ∷ []) 0 recs ++ (b']' ∷ [])

unfoldable pub new_datadog_sink : Bytes → Level → BatchSink
new_datadog_sink api_key min_level =
    with_header (new_batch_sink min_level) (bytes "DD-API-KEY") api_key

unfoldable pub elasticsearch_meta : Bytes → Bytes
elasticsearch_meta index =
    (bytes "{\"index\":{\"_index\":\"" ++ index) ++ (bytes "\"}}" ++ (b'\n' ∷ []))

unfoldable pub elasticsearch_from : Formats → Bytes → Bytes → List Record → Bytes
unfolding json_line
elasticsearch_from fm meta b [] = b
elasticsearch_from fm meta b (r ∷ rs) =
    elasticsearch_from fm meta (((b ++ meta) ++ trim_newlines (json_line fm r)) ++ (b'\n' ∷ [])) rs

unfoldable pub elasticsearch_body : Formats → Bytes → List Record → Bytes
unfolding elasticsearch_from elasticsearch_meta
elasticsearch_body fm index recs = elasticsearch_from fm (elasticsearch_meta index) [] recs

-- The loop over the map of labels, in the order in which it comes; `first` is the flag.
unfoldable pub loki_labels : Bytes → Bool → List (Bytes × Bytes) → Bytes
loki_labels b first [] = b
loki_labels b first ((k, v) ∷ rest) =
    let opened = (if first then b else b ++ (b',' ∷ [])) ++ (b'"' ∷ []) in
    loki_labels (((opened ++ k) ++ bytes "\":\"") ++ (v ++ (b'"' ∷ []))) false rest

unfoldable pub loki_from : Formats → Bytes → ℕ → List Record → Bytes
unfolding json_line
loki_from fm b i [] = b
loki_from fm b i (r ∷ rs) =
    let opened = comma_at i b ++ bytes "[\"" in
    let stamped = (opened ++ itoa64 (to_i64 (unix_nano r.time))) ++ bytes "\"," in
    let line = trim_newlines (json_line fm r) in
    loki_from fm ((stamped ++ write_json_string [] line) ++ (b']' ∷ [])) (i + 1) rs

unfoldable pub loki_body : Formats → List (Bytes × Bytes) → List Record → Bytes
unfolding loki_from loki_labels
loki_body fm labels recs =
    let head = loki_labels (bytes "{\"streams\":[{\"stream\":{") true labels in
    loki_from fm (head ++ bytes "},\"values\":[") 0 recs ++ bytes "]}]}"
