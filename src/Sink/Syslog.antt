-- ===== src/Sink/Syslog.antt =====
-- sink_syslog_unix.go: a sink that hands the encoded record to the syslog method of its severity.
use logger.Base.{Option, none, [], ◌⊎◌, inl, inr, Bytes, if◌then◌else◌, ltb_ℤ}
use logger.Level.{Level, level_debug, level_info, level_warn, level_error, level_fatal}
use logger.Sink.{Error, Sink, Encode}

-- What the sink uses of `log/syslog`'s Writer.
pub record SyslogWriter (W : Type 0) : Type 0 where
  pub debug : Bytes → W → Option Error × W
  pub info : Bytes → W → Option Error × W
  pub warning : Bytes → W → Option Error × W
  pub err : Bytes → W → Option Error × W
  pub crit : Bytes → W → Option Error × W
  pub close : W → Option Error × W

module _ {W : Type 0} where
  -- The switch of `Emit`.
  unfoldable pub severity_method : SyslogWriter W → Level → Bytes → W → Option Error × W
  severity_method w l =
      if ltb_ℤ l level_debug
      then w.debug
      else if ltb_ℤ l level_info
      then w.debug
      else if ltb_ℤ l level_warn
      then w.info
      else if ltb_ℤ l level_error
      then w.warning
      else if ltb_ℤ l level_fatal
      then w.err
      else w.crit

  unfoldable pub syslog_sink : SyslogWriter W → Encode → Level → Sink W
  unfolding severity_method
  syslog_sink w enc min_lvl = record {
    emit =
        λ r x. if ltb_ℤ r.level min_lvl then (none, x) else severity_method w r.level (enc [] r) x;
    sync = λ x. (none, x);
    close = w.close;
  }

  -- `NewSyslogSink`; `dial` is `syslog.Dial` with the arguments of the call.
  unfoldable pub new_syslog_sink :
      (W → (Error ⊎ SyslogWriter W) × W) → Encode → Level → W → (Error ⊎ Sink W) × W
  unfolding syslog_sink
  new_syslog_sink dial enc min_lvl x = dialled (dial x)
    where
      dialled : (Error ⊎ SyslogWriter W) × W → (Error ⊎ Sink W) × W
      dialled (inl err, y) = (inl err, y)
      dialled (inr w, y) = (inr (syslog_sink w enc min_lvl), y)
