-- ===== src/Tests/Text.antt =====
-- Texts, levels, fields and lines.
use logger.Base.{◌≡◌, refl, some, [], ◌∷◌, ◌++◌, Bytes, bytes, pos, decimal, append_int}
use logger.Buffer.{write_json_string}
use logger.Buffer.JsonString.{quoted}
use logger.Buffer.Reader.{read_json_string, read-write_json_string}
use logger.Level.{level_info}
use logger.Field.{string_field}
use logger.Record.{Record, blank}
use logger.Encoder.{Formats, raw}
use logger.Encoder.Logfmt.{write_logfmt_value}
use logger.Encoder.Logfmt.Values.{read_value, read_value-write_logfmt_value}
use logger.Encoder.Json.{new_json_encoder, encode}
use logger.Encoder.Json.Lines.{joined, time_members}
use logger.Encoder.Json.Objects.{described, encode_object}

abbrev said : Bytes
said = bytes "say \"hi\\\n"

read-write_json_string_example :
    read_json_string (write_json_string [] said ++ bytes ", 1") ≡ some (said, bytes ", 1")
read-write_json_string_example = read-write_json_string said (bytes ", 1")

abbrev formats : Formats
formats = record {
  float_text = decimal;
  duration_text = append_int;
  rfc3339 = append_int;
  layout = λ l t. append_int t;
  time_text = append_int;
  marshal = λ n. raw (decimal n);
  sprint_quoted = λ n. quoted (decimal n);
  frame = λ pc. (bytes "/src/app/main.go", pos 12);
}

abbrev line : Record
line = record blank {
  time = pos 5;
  level = level_info;
  message = said;
  pc = 1;
  event_name = bytes "started";
  fields = string_field (bytes "user") (bytes "ada") ∷ [];
}

encode_object_example :
    encode formats new_json_encoder [] line
    ≡ b'{'
      ∷ (joined
            (time_members formats new_json_encoder line ++ described formats new_json_encoder line)
          ++ (b'}' ∷ b'\n' ∷ []))
encode_object_example = encode_object formats new_json_encoder [] line

read_value-write_logfmt_value_example :
    read_value (write_logfmt_value [] said ++ (b' ' ∷ bytes "k=v"))
    ≡ some (said, b' ' ∷ bytes "k=v")
read_value-write_logfmt_value_example = read_value-write_logfmt_value said b' ' (bytes "k=v") refl
