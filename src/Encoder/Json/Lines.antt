-- ===== src/Encoder/Json/Lines.antt =====
-- The JSON encoder against a description of the line that it is to write.
use logger.Base.{
  ◌≡◌, refl, sym, ap, ◌∙◌, true, not, Option, none, some, List, [], ◌∷◌, ◌++◌, map, append_assoc,
  append-nil, Bytes, bytes, if◌then◌else◌, Bool-cases, inl, inr, ℤ, pos, eq_ℤ, append_int,
}
use logger.Level.{lower}
use logger.Buffer.{write_string, write_byte, write_int}
use logger.Buffer.JsonString.{quoted, write_json_string-quoted}
use logger.Field.{Field}
use logger.Record.{Record}
use logger.Encoder.{Formats, write_time, append_field_value, source}
use logger.Encoder.Append.{append_field_value-Appends}
use logger.Encoder.Json.{
  JsonEncoder, key_or, write_key, encode_time, encode_level, encode_message, encode_event,
  encode_caller, encode_fields, encode,
}

-- `"key":value`
abbrev pub member : Bytes → Bytes → Bytes
member key value = quoted key ++ (b':' ∷ value)

-- Members with a comma between two of them.
abbrev pub commas : List Bytes → Bytes
commas [] = []
commas (m ∷ ms) = b',' ∷ (m ++ commas ms)

abbrev pub joined : List Bytes → Bytes
joined [] = []
joined (m ∷ ms) = m ++ commas ms

module _ (fm : Formats) (e : JsonEncoder) where
  abbrev pub time_members : Record → List Bytes
  time_members r =
      if not (eq_ℤ r.time (pos 0))
      then member (key_or (bytes "time") e.time_key) (b'"' ∷ (fm.rfc3339 r.time ++ (b'"' ∷ [])))
        ∷ []
      else []

  abbrev pub level_text : Record → Bytes
  level_text r = if e.numeric_level then append_int r.level else quoted (lower r.level)

  abbrev pub event_members : Bytes → List Bytes
  event_members [] = []
  event_members (c ∷ cs) = member (bytes "event") (quoted (c ∷ cs)) ∷ []

  abbrev pub caller_members : Option (Bytes × ℤ) → List Bytes
  caller_members none = []
  caller_members (some (file, line)) =
      member (bytes "caller") (b'"' ∷ (file ++ (b':' ∷ (append_int line ++ (b'"' ∷ []))))) ∷ []

  abbrev pub field_member : Field → Bytes
  field_member f = member f.key (append_field_value fm [] f true)

  -- The members behind the time, in order.
  abbrev pub members : Record → List Bytes
  members r =
      (member (key_or (bytes "level") e.level_key) (level_text r)
        ∷ member (key_or (bytes "msg") e.msg_key) (quoted r.message)
        ∷ [])
      ++ (event_members r.event_name ++ (caller_members (source fm r) ++ map field_member r.fields))

  commas-append : (xs ys : List Bytes) → commas (xs ++ ys) ≡ commas xs ++ commas ys
  commas-append [] ys = refl
  commas-append (x ∷ xs) ys = rw (commas-append xs ys) (simp append_assoc)

  write_key_lem : (buf key : Bytes) → write_key buf key ≡ buf ++ (quoted key ++ (b':' ∷ []))
  unfolding write_key write_byte
  write_key_lem buf key = rw (write_json_string-quoted buf key) (simp append_assoc)

  encode_fields_lem :
      (buf : Bytes) (fs : List Field)
      → encode_fields fm buf fs ≡ buf ++ commas (map field_member fs)
  unfolding encode_fields write_byte
  encode_fields_lem buf [] = sym (append-nil buf)
  encode_fields_lem buf (f ∷ fs) =
      encode_fields_lem (append_field_value fm (write_key (buf ++ (b',' ∷ [])) f.key) f true) fs
      ∙ ap (λ b. b ++ commas (map field_member fs))
          (append_field_value-Appends fm f true _
            ∙ ap (λ b. b ++ append_field_value fm [] f true) (write_key_lem _ f.key))
      ∙ simp append_assoc

  encode_event_lem : (buf name : Bytes) → encode_event buf name ≡ buf ++ commas (event_members name)
  unfolding encode_event write_byte
  encode_event_lem buf [] = sym (append-nil buf)
  encode_event_lem buf (c ∷ cs) =
      write_json_string-quoted _ (c ∷ cs)
      ∙ ap (λ b. b ++ quoted (c ∷ cs)) (write_key_lem _ (bytes "event"))
      ∙ simp append_assoc

  encode_caller_lem :
      (buf : Bytes) (src : Option (Bytes × ℤ))
      → encode_caller buf src ≡ buf ++ commas (caller_members src)
  unfolding encode_caller write_byte write_int write_string
  encode_caller_lem buf none = sym (append-nil buf)
  encode_caller_lem buf (some (file, line)) =
      ap (λ b. ((((b ++ (b'"' ∷ [])) ++ file) ++ (b':' ∷ [])) ++ append_int line) ++ (b'"' ∷ []))
        (write_key_lem _ (bytes "caller"))
      ∙ simp append_assoc

  encode_message_lem :
      (buf : Bytes) (r : Record)
      → encode_message fm e buf r
        ≡ buf ++ commas (member (key_or (bytes "msg") e.msg_key) (quoted r.message) ∷ [])
  unfolding encode_message write_byte
  encode_message_lem buf r =
      write_json_string-quoted _ r.message
      ∙ ap (λ b. b ++ quoted r.message) (write_key_lem _ (key_or (bytes "msg") e.msg_key))
      ∙ simp append_assoc

  encode_level_lem :
      (buf : Bytes) (r : Record)
      → encode_level fm e buf r ≡ buf ++ member (key_or (bytes "level") e.level_key) (level_text r)
  unfolding encode_level write_int
  encode_level_lem buf r = elim (Bool-cases e.numeric_level) [
    | inl n ↦ simp n (ap (λ b. b ++ append_int r.level) (write_key_lem buf _) ∙ simp append_assoc)
    | inr n ↦ simp n (
        write_json_string-quoted _ (lower r.level)
        ∙ ap (λ b. b ++ quoted (lower r.level)) (write_key_lem buf _)
        ∙ simp append_assoc)
  ]

  encode_time_lem :
      (buf level : Bytes) (r : Record)
      → encode_time fm e buf r ++ level ≡ buf ++ joined (time_members r ++ (level ∷ []))
  unfolding encode_time write_byte write_time
  encode_time_lem buf level r = elim (Bool-cases (eq_ℤ r.time (pos 0))) [
    | inl zero_time ↦ simp (zero_time, append-nil)
    | inr timed ↦ simp timed (
        ap
          (λ b.
            ((((b ++ (b'"' ∷ [])) ++ fm.rfc3339 r.time) ++ (b'"' ∷ [])) ++ (b',' ∷ [])) ++ level)
          (write_key_lem buf _)
        ∙ simp (append_assoc, append-nil))
  ]

  joined-append :
      (ms : List Bytes) (m : Bytes) (ns : List Bytes)
      → joined (ms ++ (m ∷ ns)) ≡ joined (ms ++ (m ∷ [])) ++ commas ns
  joined-append [] m ns = rw append-nil
  joined-append (k ∷ ms) m ns =
      rw (commas-append ms (m ∷ ns), commas-append ms (m ∷ [])) (simp (append_assoc, append-nil))

  -- The bytes in front of the closing brace.
  body_lem :
      (b : Bytes) (r : Record)
      → let timed = encode_time fm e b r in
        let named = encode_event (encode_message fm e (encode_level fm e timed r) r) r.event_name in
        encode_fields fm (encode_caller named (source fm r)) r.fields
        ≡ b ++ joined (time_members r ++ members r)
  body_lem b r =
      let fields = commas (map field_member r.fields) in
      let caller = commas (caller_members (source fm r)) in
      let event = commas (event_members r.event_name) in
      let message = member (key_or (bytes "msg") e.msg_key) (quoted r.message) in
      let level = member (key_or (bytes "level") e.level_key) (level_text r) in
      let rest =
        message
        ∷ (event_members r.event_name
            ++ (caller_members (source fm r) ++ map field_member r.fields)) in
      let levelled = encode_level_lem (encode_time fm e b r) r ∙ encode_time_lem b level r in
      encode_fields_lem _ r.fields
      ∙ ap (λ t. t ++ fields) (encode_caller_lem _ (source fm r))
      ∙ ap (λ t. (t ++ caller) ++ fields) (encode_event_lem _ r.event_name)
      ∙ ap (λ t. ((t ++ event) ++ caller) ++ fields) (encode_message_lem _ r)
      ∙ ap (λ t. (((t ++ commas (message ∷ [])) ++ event) ++ caller) ++ fields) levelled
      ∙ rw (joined-append (time_members r) level rest)
          (simp (commas-append, append_assoc, append-nil))

  -- The members between braces, with a line feed behind.
  pub encode-members :
      (buf : Bytes) (r : Record)
      → encode fm e buf r
        ≡ buf ++ (b'{' ∷ (joined (time_members r ++ members r) ++ (b'}' ∷ b'\n' ∷ [])))
  unfolding encode write_byte
  encode-members buf r =
      ap (λ t. (t ++ (b'}' ∷ [])) ++ (b'\n' ∷ [])) (body_lem (buf ++ (b'{' ∷ [])) r)
      ∙ simp append_assoc
