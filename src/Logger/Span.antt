-- ===== src/Logger/Span.antt =====
-- span.go: spans, whose state is shared by the contexts that hold it: it is kept by its address.
pub mod Paths
use logger.Base.{
  ℕ, zero, suc, ◌+◌, Bool, true, false, Option, none, some, List, [], ◌∷◌, ◌++◌, Bytes, bytes,
  if◌then◌else◌, ◌==◌, ℤ, pos, negsuc, ◌-ℤ◌, add_i64,
}
use logger.Level.{Level, level_info, level_error}
use logger.Field.{Time, Field, string_field, dur_field, bool_field, named_err}
use logger.Record.{Context, background, context_with}
use logger.Sink.HttpBatch.Bodies.{loop_of}
use logger.Logger.{Runtime, Logger, State, or_background, log}

-- `itoa`, by the same loop as `itoa64`: of a negative number no digit comes out.
unfoldable pub itoa : ℤ → Bytes
itoa (pos n) = if n == 0 then bytes "0" else loop_of (pos n)
itoa (negsuc n) = []

pub record SpanState : Type 0 where
  pub id : Bytes
  pub path : Bytes
  pub children : ℤ

-- The states of all spans so far, by their address, and the next address.
pub record Spans : Type 0 where
  pub cell : ℕ → SpanState
  pub next : ℕ

pub record Span : Type 0 where
  pub name : Bytes
  pub id : Bytes
  pub parent_id : Bytes
  pub path : Bytes
  pub start : Time
  pub fields : List Field
  pub level : Level
  pub err : Option Bytes
  pub ended : Bool

abbrev pub put : Spans → ℕ → SpanState → Spans
put h a st = record h { cell = λ k. if k == a then st else h.cell k }

-- `if s.parentID != "" { … }`
abbrev pub parent_field : Bytes → List Field
parent_field [] = []
parent_field (c ∷ cs) = string_field (bytes "parent_span_id") (c ∷ cs) ∷ []

-- The parent's id, the path of the new span, and the states with the parent's child counted.
unfoldable pub under : Option ℕ → Spans → Bytes × Bytes × Spans
under none h = ([], bytes "1", h)
under (some a) h =
    let n = add_i64 (h.cell a).children (pos 1) in
    (
      (h.cell a).id,
      (h.cell a).path ++ (bytes "." ++ itoa n),
      put h a (record (h.cell a) { children = n }),
    )

abbrev pub span_of : Option Context → Option ℕ
span_of none = none
span_of (some ctx) = ctx.span

abbrev pub context_or : Option Context → Context
context_or none = background
context_or (some ctx) = ctx

-- `StartSpan`, with the text that `shortID` draws and the current time.
unfoldable pub start_span :
    Bytes → Time → Option Context → Bytes → List Field → Spans → Context × Span × Spans
unfolding under context_with
start_span id now ctx name fields h =
    let (parent_id, path, h') = under (span_of ctx) h in
    let own =
      string_field (bytes "span") name
      ∷ string_field (bytes "span_id") id
      ∷ string_field (bytes "span_path") path
      ∷ [] in
    let bound = (own ++ fields) ++ parent_field parent_id in
    (
      context_with (record (context_or ctx) { span = some h'.next }) bound,
      record {
        name = name;
        id = id;
        parent_id = parent_id;
        path = path;
        start = now;
        fields = fields;
        level = level_info;
        err = none;
        ended = false;
      },
      record (put h' h'.next (record { id = id; path = path; children = pos 0 })) {
        next = h'.next + 1;
      },
    )

unfoldable pub fail : Span → Option Bytes → Span
fail s err = record s { err = err; level = level_error }

unfoldable pub set_level : Span → Level → Span
set_level s l = record s { level = l }

abbrev pub is_nil : Option Bytes → Bool
is_nil none = true
is_nil (some e) = false

abbrev pub err_fields : Option Bytes → List Field
err_fields none = []
err_fields (some e) = named_err (bytes "error") (some e) ∷ []

unfoldable pub end_fields : Span → Time → List Field
end_fields s now =
    (string_field (bytes "span") s.name
      ∷ string_field (bytes "span_id") s.id
      ∷ string_field (bytes "span_path") s.path
      ∷ dur_field (bytes "duration") (now -ℤ s.start)
      ∷ bool_field (bytes "ok") (is_nil s.err)
      ∷ [])
    ++ (parent_field s.parent_id ++ (err_fields s.err ++ s.fields))

-- `End`. The duration of a span is taken to fit a Duration.
unfoldable pub end : {W : Type 0} → Runtime W → Logger W → Span → State W → Span × State W
unfolding end_fields
end rt l s st = if s.ended then (s, st) else (
  record s { ended = true },
  log rt l (some background) s.level (bytes "span.end") (end_fields s (rt.time_now st.world)) st,
)
