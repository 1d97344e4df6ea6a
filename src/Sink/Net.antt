-- ===== src/Sink/Net.antt =====
-- sink_net.go: a sink over a connection that it dials when it needs one, and once more when a write
-- fails. The methods run under the sink's mutex, so each is one step.
pub mod Account
use logger.Base.{
  ℕ, ◌+◌, ◌%◌, ◌^◌, Bool, true, false, Option, none, some, [], Bytes, bytes, if◌then◌else◌, ltb_ℤ,
}
use logger.Level.{Level}
use logger.Record.{Record}
use logger.Sink.{Error, Encode}

pub data Dialled (Conn : Type 0) : Type 0 where
  refused : Error → Dialled Conn
  opened : Conn → Dialled Conn

-- What the sink uses of package net and crypto/tls: `Dial` of a network and an address, over TLS
-- or not, and the methods of a net.Conn. A write that does not take all the bytes has an error.
pub record Network (Conn W : Type 0) : Type 0 where
  pub dial : Bytes → Bytes → Bool → W → Dialled Conn × W
  pub write : Conn → Bytes → W → Option Error × W
  pub close : Conn → W → Option Error × W

pub record NetSink (Conn : Type 0) : Type 0 where
  pub network : Bytes
  pub addr : Bytes
  pub min_lvl : Level
  pub tls : Bool
  pub conn : Option Conn
  pub dropped : ℕ

unfoldable pub new_tcp_sink : {Conn : Type 0} → Bytes → Level → NetSink Conn
new_tcp_sink addr min_level = record {
  network = bytes "tcp";
  addr = addr;
  min_lvl = min_level;
  tls = false;
  conn = none;
  dropped = 0;
}

unfoldable pub new_udp_sink : {Conn : Type 0} → Bytes → Level → NetSink Conn
new_udp_sink addr min_level = record {
  network = bytes "udp";
  addr = addr;
  min_lvl = min_level;
  tls = false;
  conn = none;
  dropped = 0;
}

unfoldable pub new_tls_sink : {Conn : Type 0} → Bytes → Level → NetSink Conn
new_tls_sink addr min_level = record {
  network = bytes "tcp";
  addr = addr;
  min_lvl = min_level;
  tls = true;
  conn = none;
  dropped = 0;
}

module _ {Conn W : Type 0} (net : Network Conn W) where
  abbrev pub Emitted : Type 0
  Emitted = Option Error × NetSink Conn × W

  -- `s.dropped++` and `return err`
  abbrev pub failing : NetSink Conn → Error → W → Emitted
  failing s e w = (some e, record s { dropped = (s.dropped + 1) % 2 ^ 64 }, w)

  -- `dialLocked`
  unfoldable pub dial_locked : NetSink Conn → W → Dialled Conn × W
  dial_locked s w = net.dial s.network s.addr s.tls w

  -- The write after the one re-dial.
  unfoldable pub write_again : NetSink Conn → Conn → Option Error × W → Emitted
  write_again s c (none, w) = (none, record s { conn = some c }, w)
  write_again s c (some e, w) = failing (record s { conn = some c }) e w

  unfoldable pub redialled : NetSink Conn → Bytes → Dialled Conn × W → Emitted
  unfolding write_again
  redialled s line (refused e, w) = failing s e w
  redialled s line (opened c, w) = write_again s c (net.write c line w)

  -- What follows the first write on the connection `c`.
  unfoldable pub written : NetSink Conn → Conn → Bytes → Option Error × W → Emitted
  unfolding redialled dial_locked
  written s c line (none, w) = (none, s, w)
  written s c line (some e, w) =
      let lost = record s { conn = none } in
      redialled lost line (dial_locked lost (net.close c w).1)

  unfoldable pub first_dialled : NetSink Conn → Bytes → Dialled Conn × W → Emitted
  unfolding written
  first_dialled s line (refused e, w) = failing s e w
  first_dialled s line (opened c, w) =
      written (record s { conn = some c }) c line (net.write c line w)

  unfoldable pub send_line : NetSink Conn → Bytes → Option Conn → W → Emitted
  unfolding first_dialled
  send_line s line none w = first_dialled s line (dial_locked s w)
  send_line s line (some c) w = written s c line (net.write c line w)

  -- `Emit`
  unfoldable pub emit : Encode → NetSink Conn → Record → W → Emitted
  unfolding send_line
  emit enc s r w = if ltb_ℤ r.level s.min_lvl then (none, s, w) else send_line s (enc [] r) s.conn w

  unfoldable pub close_conn : NetSink Conn → Option Conn → W → Emitted
  close_conn s none w = (none, s, w)
  close_conn s (some c) w = let (e, w') = net.close c w in (e, record s { conn = none }, w')

  -- `Close`
  unfoldable pub close : NetSink Conn → W → Emitted
  unfolding close_conn
  close s w = close_conn s s.conn w
