-- ===== src/Sink.antt =====
-- sink.go: the interface of a terminal destination, the sink over an io.Writer, and the fan-out.
-- A sink acts on the world `W`; an error is its text, and `none` is a nil error.
pub mod Isolation
pub mod FingersCrossed
pub mod Net
pub mod HttpBatch
pub mod RotatingFile
pub mod Syslog
use logger.Base.{ℕ, Option, none, some, List, [], ◌∷◌, Bytes, if◌then◌else◌, ltb_ℤ}
use logger.Level.{Level}
use logger.Record.{Record}

abbrev pub Error : Type 0
Error = Bytes

pub record Sink (W : Type 0) : Type 0 where
  pub emit : Record → W → Option Error × W
  pub sync : W → Option Error × W
  pub close : W → Option Error × W

-- What a sink uses of an io.Writer. `sync` and `close` are there if the writer has such a method.
pub record Writer (W : Type 0) : Type 0 where
  pub write : Bytes → W → Option Error × W
  pub sync : Option (W → Option Error × W)
  pub close : Option (W → Option Error × W)

-- `Encoder.Encode`, which appends a line to a buffer.
abbrev pub Encode : Type 0
Encode = Bytes → Record → Bytes

abbrev if_has : {W : Type 0} → Option (W → Option Error × W) → W → Option Error × W
if_has none w = (none, w)
if_has (some f) w = f w

-- `WriterSink`; `min_lvl` is its Leveler.
unfoldable pub writer_sink : {W : Type 0} → Writer W → Encode → (W → Level) → Sink W
writer_sink wr enc min_lvl = record {
  emit = λ r w. if ltb_ℤ r.level (min_lvl w) then (none, w) else wr.write (enc [] r) w;
  sync = if_has wr.sync;
  close = if_has wr.close;
}

-- `f.OnError(s, err)`, if there is a handler; a sink is named by its index.
abbrev pub OnError : Type 0 → Type 0
OnError W = Option (ℕ → Error → W → W)

abbrev pub report : {W : Type 0} → OnError W → ℕ → Option Error × W → W
report on_error i (none, w) = w
report none i (some e, w) = w
report (some handler) i (some e, w) = handler i e w

unfoldable pub emit_each : {W : Type 0} → OnError W → ℕ → List (Sink W) → Record → W → W
emit_each on_error i [] r w = w
emit_each on_error i (s ∷ ss) r w =
    emit_each on_error (ℕ.suc i) ss r (report on_error i (s.emit r w))

-- The first error of the loops of `Fanout.Sync` and `Fanout.Close`.
abbrev pub keep_first : Option Error → Option Error → Option Error
keep_first none e = e
keep_first (some e) _ = some e

unfoldable pub each_in_turn :
    {W : Type 0} → List (W → Option Error × W) → Option Error → W → Option Error × W
each_in_turn [] first w = (first, w)
each_in_turn (f ∷ fs) first w = let (e, w') = f w in each_in_turn fs (keep_first first e) w'

abbrev pub syncs : {W : Type 0} → List (Sink W) → List (W → Option Error × W)
syncs [] = []
syncs (s ∷ ss) = s.sync ∷ syncs ss

abbrev pub closes : {W : Type 0} → List (Sink W) → List (W → Option Error × W)
closes [] = []
closes (s ∷ ss) = s.close ∷ closes ss

-- `Fanout`
unfoldable pub fanout : {W : Type 0} → List (Sink W) → OnError W → Sink W
unfolding emit_each each_in_turn
fanout sinks on_error = record {
  emit = λ r w. (none, emit_each on_error 0 sinks r w);
  sync = each_in_turn (syncs sinks) none;
  close = each_in_turn (closes sinks) none;
}
