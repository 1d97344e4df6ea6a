-- ===== src/Logger/Presets.antt =====
-- presets.go, tty.go and logger.go: the loggers of `Development` and `Test`, the sink on a console,
-- and the one that `New` has without an option.
use logger.Base.{Bool, false, Option, none, some, [], ◌∷◌, if◌then◌else◌}
use logger.Level.{Level, level_debug, level_trace}
use logger.Sink.{Sink, Writer, writer_sink}
use logger.Encoder.{Formats}
use logger.Encoder.Json
use logger.Encoder.Json.{new_json_encoder}
use logger.Encoder.Console.{new_console_encoder, encode}
use logger.Logger.{Logger, new, with_level, with_sink, with_caller}

-- An io.Writer that may be an `*os.File`: then `stat` says whether its mode has the bit of a
-- character device, or fails.
pub record Output (W : Type 0) : Type 0 where
  pub writer : Writer W
  pub stat : Option (Option Bool)

abbrev pub is_device : Option (Option Bool) → Bool
is_device none = false
is_device (some none) = false
is_device (some (some device)) = device

-- `isTTY`; `no_color` says whether NO_COLOR is set.
unfoldable pub is_tty : {W : Type 0} → Bool → Output W → Bool
is_tty no_color out = if no_color then false else is_device out.stat

module _ {W : Type 0} (fm : Formats) where
  unfoldable pub new_console_sink : Bool → Output W → Level → Sink W
  unfolding is_tty new_console_encoder encode writer_sink
  new_console_sink no_color out min_level =
      writer_sink out.writer
        (encode fm (record new_console_encoder { color = is_tty no_color out })) (λ w. min_level)

  -- `Development`, on stderr.
  unfoldable pub development : Sink W → Bool → Output W → Logger W
  unfolding new with_level with_sink with_caller new_console_sink
  development default no_color stderr = new default (
      with_level level_debug
      ∷ with_sink (new_console_sink no_color stderr level_debug)
      ∷ with_caller 0
      ∷ [])

  -- `Test`
  unfoldable pub test : Sink W → Writer W → Logger W
  unfolding new with_level with_sink writer_sink new_console_encoder encode
  test default w = new default (
      with_level level_trace
      ∷ with_sink (writer_sink w (encode fm new_console_encoder) (λ x. level_trace))
      ∷ [])

  -- The JSON sink on stderr that `New` takes if it is given no other.
  unfoldable pub default_sink : Writer W → Sink W
  unfolding writer_sink new_json_encoder logger.Encoder.Json.encode
  default_sink stderr =
      writer_sink stderr (logger.Encoder.Json.encode fm new_json_encoder) (λ w. level_trace)
