-- ===== src/Tests/Sinks.antt =====
-- Sinks: the network, a log file, batches, and the lines they send.
use logger.Base.{
  ℕ, ◌+◌, ◌%◌, ◌^◌, ◌<◌, ◌≡◌, refl, Bool, true, false, ◌⊎◌, none, some, List, [], ◌∷◌, ◌++◌, Bytes,
  bytes, if◌then◌else◌, leb, length, All, arith, pos, to_i64, to_u64,
}
use logger.Level.{level_info, level_debug}
use logger.Field.{string_field}
use logger.Record.{Record, blank}
use logger.Sink.{Error, Encode}
use logger.Sink.Net.{opened, Network, NetSink, new_tcp_sink}
use logger.Sink.Net.Account.{run, taken, errors, emit_accounted}
use logger.Sink.HttpBatch.{
  BatchSink, new_batch_sink, System, initial, fills, Reach, here, next, emit,
}
use logger.Sink.HttpBatch.Steps.{records_in, Fits, limit, batches_accounted}
use logger.Sink.RotatingFile.{err, ok, Fs, RotatingFile, write}
use logger.Sink.RotatingFile.Failure
use logger.Sink.RotatingFile.Failure.{ClosedLaws, AllFail, write_after_failed_rename}
use logger.Encoder.{Formats, raw}
use logger.Encoder.Json.{new_json_encoder, encode}
use logger.Encoder.Json.Printable.{Printable, FormatsPrintable, RecordIsText, encode_one_line}

-- A network whose writes fail at the first two calls.
abbrev network : Network ℕ ℕ
network = record {
  dial = λ n a t w. (opened 7, w + 1);
  write = λ c line w. (if leb w 3 then some (bytes "broken pipe") else none, w + 1);
  close = λ c w. (none, w + 1);
}

abbrev plain : Encode
plain b r = b ++ (r.message ++ (b'\n' ∷ []))

abbrev note : Bytes → Record
note text = record blank { level = level_info; message = text }

abbrev notes : List Record
notes = note (bytes "a") ∷ note (bytes "b") ∷ record (note (bytes "c")) { level = level_debug } ∷ []

abbrev tcp : NetSink ℕ
tcp = new_tcp_sink (bytes "log:514") level_info

emit_accounted_example :
    let (es, s, wl) = run network plain tcp notes (0, []) in
    (wl.1 ≡ taken network plain level_info notes es [])
    × (s.dropped ≡ (0 + errors network es) % 2 ^ 64)
unfolding new_tcp_sink
emit_accounted_example = emit_accounted network plain tcp notes 0 (omega arith)

abbrev single : BatchSink
single = record (new_batch_sink level_info) { max_batch = pos 1 }

abbrev sent : System
sent = record {
  sink = single;
  in_flight = (note (bytes "a") ∷ []) ∷ [];
  accepted = 1;
  delivered = 0;
  lost = 0;
}

sent_reached : Reach (initial single) sent
unfolding new_batch_sink emit
sent_reached = next here (fills (note (bytes "a")) (note (bytes "a") ∷ []) single refl)

batches_accounted_example :
    (1 ≡ 0 + 0 + records_in ((note (bytes "a") ∷ []) ∷ []) + length sent.sink.buf)
    × (sent.sink.dropped ≡ 0 % 2 ^ 64)
    × All (Fits (pos 1)) ((note (bytes "a") ∷ []) ∷ [])
    × (length sent.sink.buf < limit (pos 1))
    × ((length sent.sink.buf ≡ 0) ⊎ (sent.sink.timer ≡ true))
    × ((sent.sink.closed ≡ false) ⊎ (length sent.sink.buf ≡ 0))
batches_accounted_example = batches_accounted level_info (pos 1) sent sent_reached

abbrev pub formats : Formats
formats = record {
  float_text = λ n. bytes "1.5";
  duration_text = λ d. bytes "1s";
  rfc3339 = λ t. bytes "2024-01-01T00:00:00Z";
  layout = λ l t. bytes "today";
  time_text = λ t. bytes "today";
  marshal = λ n. raw (bytes "{}");
  sprint_quoted = λ n. bytes "\"{}\"";
  frame = λ pc. (bytes "main.go", pos 12);
}

pub formats-FormatsPrintable : FormatsPrintable formats
formats-FormatsPrintable = record {
  floats = λ n. omega arith;
  times = λ t. omega arith;
  durations = λ d. omega arith;
  time_texts = λ t. omega arith;
  marshals = λ n. omega arith;
  files = λ n. omega arith;
}

abbrev forged : Record
forged = record (note (bytes "x\n{\"msg\":\"forged\"}")) {
  fields = string_field (bytes "k\n") (bytes "v\n") ∷ [];
}

forged-RecordIsText : RecordIsText forged
unfolding string_field
forged-RecordIsText = record {
  message = omega arith;
  event = tt;
  fields = (record { key = omega arith; str = omega arith; any = tt }, tt);
}

encode_one_line_example :
    (text : Bytes) × (encode formats new_json_encoder [] forged ≡ text ++ (b'\n' ∷ []))
    × Printable text
unfolding new_json_encoder
encode_one_line_example =
    encode_one_line formats formats-FormatsPrintable new_json_encoder
      (record { time = omega arith; level = omega arith; message = omega arith }) forged
      forged-RecordIsText

-- A disk of one file, open or closed, on which no rename works.
abbrev denied : Error
denied = bytes "permission denied"

abbrev disk : Fs ℕ Bool
disk = record {
  dir = λ p. bytes "/var/log";
  base = λ p. bytes "app.log";
  join = λ d n. d ++ (bytes "/" ++ n);
  mkdir_all = λ p w. (none, w);
  open_append = λ p w. (ok 3, true);
  open_read = λ p w. (err denied, w);
  create = λ p w. (err denied, w);
  size_of = λ h w. (ok (pos 0), w);
  write = λ h p w. (if w then (length p, none) else (0, some denied), w);
  sync = λ h w. (none, w);
  close = λ h w. (if w then none else some denied, false);
  gzip_copy = λ a b w. ((none, none), w);
  rename = λ a b w. (some denied, w);
  remove = λ p w. w;
  read_dir = λ d w. (ok [], w);
  stamp = λ w. bytes "20240101";
  now = λ w. pos 0;
  newest_first = λ ss. ss;
}

abbrev log_file : RotatingFile ℕ
log_file = record {
  path = bytes "/var/log/app.log";
  max_size_bytes = pos 8;
  max_backups = pos 2;
  max_age = pos 0;
  compress = false;
  f = 3;
  size = pos 6;
  compressing = [];
}

abbrev IsShut : ℕ → Bool → Type 0
IsShut h w = w ≡ false

disk_writes :
    (h : ℕ) (p : Bytes) (w : Bool)
    → IsShut h w
    → (e : Error) × (disk.write h p w ≡ ((0, some e), w))
disk_writes h p w shut = (denied, rw shut refl)

disk_closes_again : (h : ℕ) (w : Bool) → IsShut h w → (e : Error) × (disk.close h w ≡ (some e, w))
disk_closes_again h w shut = (denied, rw shut refl)

disk-ClosedLaws : ClosedLaws disk IsShut
disk-ClosedLaws = record {
  closes = λ h w e. refl;
  renames = λ h from to w shut. shut;
  writes = disk_writes;
  closes_again = disk_closes_again;
}

write_after_failed_rename_example :
    ((write disk log_file (bytes "two") true).0 ≡ (0, some denied))
    × AllFail disk (
        Failure.run disk
          (write disk log_file (bytes "two") true).1
          (bytes "c" ∷ [])
          (write disk log_file (bytes "two") true).2)
unfolding to_i64 to_u64
write_after_failed_rename_example =
    write_after_failed_rename disk IsShut disk-ClosedLaws log_file (bytes "two") (bytes "c" ∷ [])
      true denied refl refl refl
