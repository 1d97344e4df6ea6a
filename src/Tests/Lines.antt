-- ===== src/Tests/Lines.antt =====
-- A logger on stderr, and what it has written at the end.
use logger.Base.{◌≡◌, refl, none, List, [], ◌∷◌, ◌++◌, Bytes, bytes, All, arith, pos}
use logger.Level.{level_info, level_debug, level_error}
use logger.Field.{Field, string_field}
use logger.Sink.{Writer}
use logger.Audit.{split_lines}
use logger.Metrics.{zero_metrics}
use logger.Encoder.Json.Printable.{FieldIsText}
use logger.Logger.{Runtime}
use logger.Logger.Counts.{Call, message, event, perform_all}
use logger.Logger.Lines.{CallIsText, plain_logger, lines_of, lines_of_calls}
use logger.Tests.Sinks.{formats, formats-FormatsPrintable}

abbrev stderr : Writer Bytes
stderr = record { write = λ b w. (none, w ++ b); sync = none; close = none }

abbrev clock : Runtime Bytes
clock = record { time_now = λ w. pos 1; callers = λ k w. k }

abbrev service : List Field
service = string_field (bytes "service") (bytes "api\n") ∷ []

abbrev calls : List Call
calls =
    message none level_info (bytes "x\n{\"msg\":\"forged\"}") (service ++ [])
    ∷ message none level_debug (bytes "unseen") []
    ∷ event none level_error (bytes "lost") []
    ∷ []

service_text : All FieldIsText service
unfolding string_field
service_text = (record { key = omega arith; str = omega arith; any = tt }, tt)

calls_text : All CallIsText calls
calls_text = ((omega arith, service_text), ((omega arith, tt), ((omega arith, tt), tt)))

lines_of_calls_example :
    split_lines
      (perform_all clock
        (plain_logger formats stderr clock service)
        calls
        (record { metrics = zero_metrics; world = [] })).world
    ≡ lines_of formats stderr clock service calls []
lines_of_calls_example =
    lines_of_calls formats stderr clock service (λ b w. refl) calls zero_metrics
      formats-FormatsPrintable service_text calls_text
