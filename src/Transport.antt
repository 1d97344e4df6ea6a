-- ===== src/Transport.antt =====
-- transport.go: how a finished record gets to the sink. Here the interface and the transport that
-- delivers inline.
pub mod RingTransport
pub mod Disruptor
pub mod ChannelTransport
use logger.Base.{ℕ, Option}
use logger.Record.{Record}
use logger.Sink.{Error, Sink}

-- `OverflowPolicy`
pub data Policy : Type 0 where
  block drop_newest drop_oldest : Policy

-- `Transport`. Dispatch does not keep the record: one that defers its delivery clones it.
pub record Transport (W : Type 0) : Type 0 where
  pub dispatch : Record → W → W
  pub dropped : W → ℕ
  pub sync : W → Option Error × W
  pub close : W → Option Error × W

-- `SyncTransport` (transport.go)
unfoldable pub sync_transport : {W : Type 0} → Sink W → Transport W
sync_transport s = record {
  dispatch = λ r w. (s.emit r w).1;
  dropped = λ w. 0;
  sync = s.sync;
  close = s.close;
}
