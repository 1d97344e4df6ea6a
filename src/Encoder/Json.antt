-- ===== src/Encoder/Json.antt =====
-- encoder_json.go: one JSON object to a line.
pub mod Lines
pub mod Objects
pub mod Printable
use logger.Base.{
  ℕ, ◌+◌, Bool, true, false, not, Option, none, some, List, [], ◌∷◌, ◌++◌, Bytes, bytes,
  if◌then◌else◌, ◌==◌, ℤ, pos, eq_ℤ,
}
use logger.Level.{lower}
use logger.Buffer.{write_string, write_byte, write_int, write_json_string}
use logger.Field.{Field}
use logger.Record.{Record}
use logger.Encoder.{Formats, write_time, append_field_value, source}

pub record JsonEncoder : Type 0 where
  pub time_key : Bytes
  pub level_key : Bytes
  pub msg_key : Bytes
  pub numeric_level : Bool

unfoldable pub new_json_encoder : JsonEncoder
new_json_encoder = record {
  time_key = bytes "time";
  level_key = bytes "level";
  msg_key = bytes "msg";
  numeric_level = false;
}

-- `if k == "" { k = default }`
abbrev pub key_or : Bytes → Bytes → Bytes
key_or default [] = default
key_or default (c ∷ cs) = c ∷ cs

-- `buf.writeJSONString(key); buf.writeByte(':')`
unfoldable pub write_key : Bytes → Bytes → Bytes
write_key buf key = write_byte (write_json_string buf key) b':'

module _ (fm : Formats) (e : JsonEncoder) where
  -- The time, unless it is zero, with the comma behind it.
  unfoldable pub encode_time : Bytes → Record → Bytes
  unfolding write_key
  encode_time buf r =
      if not (eq_ℤ r.time (pos 0))
      then write_byte
          (write_byte
            (write_time fm (write_byte (write_key buf (key_or (bytes "time") e.time_key)) b'"')
              r.time)
            b'"')
          b','
      else buf

  unfoldable pub encode_level : Bytes → Record → Bytes
  unfolding write_key
  encode_level buf r =
      let b = write_key buf (key_or (bytes "level") e.level_key) in
      if e.numeric_level then write_int b r.level else write_json_string b (lower r.level)

  unfoldable pub encode_message : Bytes → Record → Bytes
  unfolding write_key
  encode_message buf r =
      write_json_string (write_key (write_byte buf b',') (key_or (bytes "msg") e.msg_key)) r.message

unfoldable pub encode_event : Bytes → Bytes → Bytes
unfolding write_key
encode_event buf [] = buf
encode_event buf (c ∷ cs) =
    write_json_string (write_key (write_byte buf b',') (bytes "event")) (c ∷ cs)

-- The place of the caller is written raw, between quotes.
unfoldable pub encode_caller : Bytes → Option (Bytes × ℤ) → Bytes
unfolding write_key
encode_caller buf none = buf
encode_caller buf (some (file, line)) =
    let b = write_byte (write_key (write_byte buf b',') (bytes "caller")) b'"' in
    write_byte (write_int (write_byte (write_string b file) b':') line) b'"'

unfoldable pub encode_fields : Formats → Bytes → List Field → Bytes
unfolding write_key
encode_fields fm buf [] = buf
encode_fields fm buf (f ∷ fs) =
    encode_fields fm (append_field_value fm (write_key (write_byte buf b',') f.key) f true) fs

-- `JSONEncoder.Encode`
unfoldable pub encode : Formats → JsonEncoder → Bytes → Record → Bytes
unfolding encode_time encode_level encode_message encode_event encode_caller encode_fields
encode fm e buf r =
    let timed = encode_time fm e (write_byte buf b'{') r in
    let levelled = encode_level fm e timed r in
    let named = encode_event (encode_message fm e levelled r) r.event_name in
    let placed = encode_caller named (source fm r) in
    write_byte (write_byte (encode_fields fm placed r.fields) b'}') b'\n'
