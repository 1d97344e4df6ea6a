-- ===== src/Sink/HttpBatch/Bodies/Lines.antt =====
-- The number texts of sink_http.go, and the lines of an Elasticsearch request.
use logger.Base.{
  ℕ, zero, suc, ◌-◌, ◌*◌, ◌/◌, ◌^◌, ◌≤◌, ◌<◌, ◌≡◌, refl, sym, subst, ap, ◌∙◌, ◌≢◌, true, List, [],
  ◌∷◌, ◌++◌, append_assoc, append-nil, All, All-append, Bytes, bytes, ◌==◌, ltb, Bool-cases, inl,
  inr, arith, digit, digits_onto, decimal, append_int, ℤ, pos, negsuc, ◌<ℤ◌, to_i64, to_u64,
}
use logger.Record.{Record}
use logger.Audit.{trim_newlines, split_lines}
use logger.Audit.Chain.{NoNewline, split_lines-line}
use logger.Encoder.{Formats}
use logger.Encoder.Json.{new_json_encoder}
use logger.Encoder.Json.Printable.{
  Printable, FormatsPrintable, RecordIsText, KeysAreText, encode_one_line,
}
use logger.Sink.HttpBatch.Bodies.{
  digits_loop, loop_of, negate, itoa64, json_line, elasticsearch_meta, elasticsearch_from,
  elasticsearch_body,
}

-- 10 to the power of `f`
pow10 : ℕ → ℕ
pow10 zero = 1
pow10 (suc f) = 10 * pow10 f

digits_loop-digits_onto :
    (f g n : ℕ) (acc : Bytes) → n < pow10 f → n ≤ g → digits_loop f n acc ≡ digits_onto g n acc
unfolding digits_loop digits_onto pow10
digits_loop-digits_onto zero zero n acc h k = refl
digits_loop-digits_onto zero (suc g) n acc h k = ground arith
digits_loop-digits_onto (suc f) zero n acc h k = ground arith
digits_loop-digits_onto (suc f) (suc g) n acc h k = elim (Bool-cases (n == 0)) [
  | inl e ↦ ground arith
  | inr e ↦
      let less : n / 10 < pow10 f = omega arith in
      let fits : n / 10 ≤ g = ground arith in
      let on : ltb 0 n ≡ true = ground arith in
      rw (on, e) (digits_loop-digits_onto f g (n / 10) (digit n ∷ acc) less fits)
]

pub loop_of-digits_onto : (n : ℕ) → n < 2 ^ 63 → loop_of (pos n) ≡ digits_onto n n []
unfolding loop_of
loop_of-digits_onto n k =
    digits_loop-digits_onto 20 n n [] (unfold pow10 in omega arith) (omega arith)

negate_negsuc : (n : ℕ) → suc n < 2 ^ 63 → negate (negsuc n) ≡ pos (suc n)
unfolding negate to_i64 to_u64
negate_negsuc n h = ground arith

pub digits_onto-decimal : (n : ℕ) → digits_onto (suc n) (suc n) [] ≡ decimal (suc n)
unfolding decimal
digits_onto-decimal n = ground arith

-- `itoa64` prints every `int64` but the least one as strconv does.
pub itoa64-append_int :
    (z : ℤ) → negsuc (2 ^ 63 - 1) <ℤ z → z <ℤ pos (2 ^ 63) → itoa64 z ≡ append_int z
unfolding itoa64 append_int
itoa64-append_int (pos n) h k = elim (Bool-cases (n == 0)) [
  | inl e ↦ rw e refl
  | inr e ↦ rw e (loop_of-digits_onto n (omega arith))
]
itoa64-append_int (negsuc n) h k =
    ap (λ t. b'-' ∷ t)
      (ap loop_of (negate_negsuc n (omega arith))
        ∙ loop_of-digits_onto (suc n) (omega arith)
        ∙ digits_onto-decimal n)

-- The least `int64` comes out as a bare minus sign.
itoa64_least : itoa64 (negsuc (2 ^ 63 - 1)) ≡ b'-' ∷ []
unfolding itoa64 loop_of negate to_i64 to_u64
itoa64_least = refl

trim_newlines-line : (t : Bytes) → NoNewline t → trim_newlines (t ++ (b'\n' ∷ [])) ≡ t
unfolding trim_newlines
trim_newlines-line [] h = refl
trim_newlines-line (c ∷ []) h = ground (arith, h.0)
trim_newlines-line (c ∷ d ∷ t) h = rw (trim_newlines-line (d ∷ t) h.1) refl

Printable-NoNewline : (t : Bytes) → Printable t → NoNewline t
Printable-NoNewline [] h = tt
Printable-NoNewline (c ∷ t) h = (omega (arith, h.0), Printable-NoNewline t h.1)

-- The line of an action, and the lines of a whole request.
abbrev pub meta_line : Bytes → Bytes
meta_line index = (bytes "{\"index\":{\"_index\":\"" ++ index) ++ bytes "\"}}"

abbrev pub bulk_lines : Formats → Bytes → List Record → List Bytes
bulk_lines fm index [] = []
bulk_lines fm index (r ∷ rs) =
    meta_line index ∷ trim_newlines (json_line fm r) ∷ bulk_lines fm index rs

keys : KeysAreText new_json_encoder
unfolding new_json_encoder
keys = record { time = omega arith; level = omega arith; message = omega arith }

-- The JSON line of a record is a text with no line feed and one behind it.
pub json_line-NoNewline :
    (fm : Formats) (r : Record)
    → FormatsPrintable fm
    → RecordIsText r
    → let line = trim_newlines (json_line fm r) in
      NoNewline line × (json_line fm r ≡ line ++ (b'\n' ∷ []))
unfolding json_line
json_line-NoNewline fm r h v =
    let (text, is, plain) = encode_one_line fm h new_json_encoder keys r v in
    let clean = Printable-NoNewline text plain in
    let same : text ≡ trim_newlines (json_line fm r) =
      sym (ap trim_newlines is ∙ trim_newlines-line text clean) in
    (subst NoNewline same clean, is ∙ ap (λ t. t ++ (b'\n' ∷ [])) same)

elasticsearch_from-append :
    (fm : Formats) (meta b : Bytes) (rs : List Record)
    → elasticsearch_from fm meta b rs ≡ b ++ elasticsearch_from fm meta [] rs
unfolding elasticsearch_from
elasticsearch_from-append fm meta b [] = sym (append-nil b)
elasticsearch_from-append fm meta b (r ∷ rs) =
    let line = trim_newlines (json_line fm r) in
    let more = elasticsearch_from-append fm meta ((meta ++ line) ++ (b'\n' ∷ [])) rs in
    let rest = elasticsearch_from fm meta [] rs in
    let regrouped : (((b ++ meta) ++ line) ++ (b'\n' ∷ [])) ++ rest
        ≡ b ++ (((meta ++ line) ++ (b'\n' ∷ [])) ++ rest) =
      simp append_assoc in
    elasticsearch_from-append fm meta (((b ++ meta) ++ line) ++ (b'\n' ∷ [])) rs
    ∙ regrouped
    ∙ ap (λ t. b ++ t) (sym more)

split_lines-elasticsearch :
    (fm : Formats) (index : Bytes) (rs : List Record)
    → FormatsPrintable fm
    → NoNewline index
    → All RecordIsText rs
    → split_lines (elasticsearch_from fm (elasticsearch_meta index) [] rs) ≡ bulk_lines fm index rs
unfolding elasticsearch_from elasticsearch_meta
split_lines-elasticsearch fm index [] h i v = unfold split_lines in refl
split_lines-elasticsearch fm index (r ∷ rs) h i v =
    let line = trim_newlines (json_line fm r) in
    let rest = elasticsearch_from fm (elasticsearch_meta index) [] rs in
    let quotes = All-append (λ c. c ≢ b'\n') index (bytes "\"}}") i (omega arith) in
    let clean =
      All-append (λ c. c ≢ b'\n') (bytes "{\"index\":{\"_index\":\"") (index ++ bytes "\"}}")
        (omega arith) quotes in
    ap split_lines
      (elasticsearch_from-append fm (elasticsearch_meta index) _ rs ∙ simp append_assoc)
    ∙ split_lines-line (meta_line index) (line ++ (b'\n' ∷ rest)) clean
    ∙ ap (λ t. meta_line index ∷ t)
        (split_lines-line line rest (json_line-NoNewline fm r h v.0).0
          ∙ ap (λ t. line ∷ t) (split_lines-elasticsearch fm index rs h i v.1))

-- A bulk request has two lines for each record, the action and the record's JSON line, and no
-- other, whatever bytes the texts of the records are made of, if the index's name has no line feed.
pub split_lines-elasticsearch_body :
    (fm : Formats) (index : Bytes) (rs : List Record)
    → FormatsPrintable fm
    → NoNewline index
    → All RecordIsText rs
    → split_lines (elasticsearch_body fm index rs) ≡ bulk_lines fm index rs
unfolding elasticsearch_body
split_lines-elasticsearch_body fm index rs h i v = split_lines-elasticsearch fm index rs h i v
