-- ===== src/Tests/Messages.antt =====
-- Messages from templates, the paths of spans, and requests for a level.
use logger.Base.{
  ℕ, ◌≡◌, ◌≢◌, refl, true, false, Option, none, some, List, [], ◌∷◌, ◌++◌, Bytes, bytes, arith, pos,
  decimal,
}
use logger.Field.{AnyVal, string_field}
use logger.Level.{new_level_var, level_info, level_debug}
use logger.Level.Control.{missing, present}
use logger.Level.Control.Running
use logger.Level.Control.Running.Sources.{Kept, level_has_source}
use logger.Record.{background}
use logger.Logger.Template.{parse_template}
use logger.Logger.Template.RoundTrip.{
  Part, text, named, print, render, hole_fields, parse_template-print,
}
use logger.Logger.Span.{Spans}
use logger.Logger.Span.Paths.{
  Start, is_under, count_under, started, all_started, sibling_paths_differ,
}

abbrev sprint : AnyVal → Bytes
sprint (AnyVal.string s) = s
sprint _ = bytes "<nil>"

abbrev greeting : List Part
greeting = text (bytes "hello {") ∷ named (bytes "user") ∷ text (bytes "}") ∷ named (bytes "n") ∷ []

abbrev ada : List AnyVal
ada = AnyVal.string (bytes "ada") ∷ []

parse_template-print_example : parse_template sprint (print greeting) ada ≡ (
  render sprint greeting ada,
  hole_fields greeting ada ++ (string_field (bytes "msg_template") (print greeting) ∷ []),
)
parse_template-print_example = parse_template-print sprint greeting ada (omega arith)

-- A root span at the address 0.
abbrev one_span : Spans
one_span = record {
  cell = λ a. record { id = bytes "a1"; path = bytes "1"; children = pos 0 };
  next = 1;
}

abbrev child : Bytes → Option ℕ → Start
child id parent = record {
  id = id;
  now = pos 0;
  ctx = some (record background { span = parent });
  name = bytes "step";
  fields = [];
}

abbrev first : Start
first = child (bytes "b1") (some 0)

abbrev others : List Start
others = child (bytes "c1") (some 1) ∷ child (bytes "c2") none ∷ child (bytes "c3") (some 0) ∷ []

abbrev last : Start
last = child (bytes "b2") (some 0)

sibling_paths_differ_example :
    ((started first one_span).1.path ≡ bytes "1" ++ (bytes "." ++ decimal 1))
    × ((started last (all_started others (started first one_span).2)).1.path
        ≡ bytes "1" ++ (bytes "." ++ decimal 3))
    × ((started first one_span).1.path
        ≢ (started last (all_started others (started first one_span).2)).1.path)
unfolding count_under is_under
sibling_paths_differ_example =
    sibling_paths_differ one_span 0 0 first last others (omega arith) refl refl refl (omega arith)

-- A signal that arrives and is handled, and a tick that finds another file.
abbrev begun : Running.System
begun = Running.started (new_level_var level_info) missing

abbrev reached : Running.System
reached =
    Running.ticked
      (Running.cycled level_info level_debug
        (Running.cycled level_info level_debug begun false
          (record Running.new_loop { pending = true; arrived = 1 }))
        true (record Running.new_loop { pending = false; arrived = 1; handled = 1 }))
      (present (pos 1) (some (bytes "warn")))

reached-Reach : Running.Reach level_info level_debug begun reached
unfolding Running.started Running.cycled
reached-Reach =
    Running.next
      (Running.next (Running.next Running.here (Running.cycles (Running.arrives refl)))
        (Running.cycles (Running.handles refl refl)))
      (Running.ticks (present (pos 1) (some (bytes "warn"))) refl)

level_has_source_example : Kept level_info level_debug reached
level_has_source_example =
    level_has_source level_info level_debug (new_level_var level_info) missing reached reached-Reach
