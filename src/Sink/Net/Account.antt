-- ===== src/Sink/Net/Account.antt =====
-- Every line is written by exactly one successful write, or its loss is counted and returned.
use logger.Base.{
  ℕ, ◌+◌, ◌%◌, ◌^◌, ◌<◌, ◌≡◌, refl, ap₂, ◌∙◌, true, false, Option, none, some, List, [], ◌∷◌, Bytes,
  if◌then◌else◌, ltb_ℤ, Bool-cases, inl, inr, arith,
}
use logger.Level.{Level}
use logger.Record.{Record}
use logger.Sink.{Error, Encode}
use logger.Sink.Net.{
  Dialled, refused, opened, Network, NetSink, Emitted, write_again, redialled, written,
  first_dialled, send_line, emit,
}

-- The lines that successful writes have taken, the last one first.
abbrev pub log_write :
    {W : Type 0} → Bytes → List Bytes → Option Error × W → Option Error × (W × List Bytes)
log_write line log (none, w) = (none, (w, line ∷ log))
log_write line log (some e, w) = (some e, (w, log))

-- A network that keeps a log of its successful writes and does else what `net` does.
abbrev pub logging : {Conn W : Type 0} → Network Conn W → Network Conn (W × List Bytes)
logging net = record {
  dial = λ n a t wl. let (d, w) = net.dial n a t wl.0 in (d, (w, wl.1));
  write = λ c line wl. log_write line wl.1 (net.write c line wl.0);
  close = λ c wl. let (e, w) = net.close c wl.0 in (e, (w, wl.1));
}

-- The lines of the records that an `Emit` returns nil for, the last one first.
abbrev pub after_emit : Option Error → Bytes → List Bytes → List Bytes
after_emit none line log = line ∷ log
after_emit (some e) line log = log

abbrev pub one_if_error : Option Error → ℕ
one_if_error none = 0
one_if_error (some e) = 1

module _ {Conn W : Type 0} (net : Network Conn W) where
  -- What one attempt did with a line, by the sink before it and a log.
  abbrev Attempt : NetSink Conn → Bytes → List Bytes → Emitted (logging net) → Type 0
  Attempt before line log (e, s, wl) =
      (wl.1 ≡ after_emit e line log)
      × (s.dropped ≡ (before.dropped + one_if_error e) % 2 ^ 64)
      × (s.min_lvl ≡ before.min_lvl)

  write_again-Attempt :
      (s : NetSink Conn) (c : Conn) (line : Bytes) (log : List Bytes) (out : Option Error × W)
      → s.dropped < 2 ^ 64
      → Attempt s line log (write_again (logging net) s c (log_write line log out))
  unfolding write_again
  write_again-Attempt s c line log (none, w) h = (refl, omega arith, refl)
  write_again-Attempt s c line log (some e, w) h = (refl, refl, refl)

  redialled-Attempt :
      (s : NetSink Conn) (line : Bytes) (d : Dialled Conn) (w : W) (log : List Bytes)
      → s.dropped < 2 ^ 64
      → Attempt s line log (redialled (logging net) s line (d, (w, log)))
  unfolding redialled
  redialled-Attempt s line (refused e) w log h = (refl, refl, refl)
  redialled-Attempt s line (opened c) w log h =
      write_again-Attempt s c line log (net.write c line w) h

  written-Attempt :
      (s : NetSink Conn) (c : Conn) (line : Bytes) (log : List Bytes) (out : Option Error × W)
      → s.dropped < 2 ^ 64
      → Attempt s line log (written (logging net) s c line (log_write line log out))
  unfolding written
  written-Attempt s c line log (none, w) h = (refl, omega arith, refl)
  written-Attempt s c line log (some e, w) h =
      redialled-Attempt (record s { conn = none }) line _ _ log h

  send_line-Attempt :
      (s : NetSink Conn) (line : Bytes) (conn : Option Conn) (w : W) (log : List Bytes)
      → s.dropped < 2 ^ 64
      → Attempt s line log (send_line (logging net) s line conn (w, log))
  unfolding send_line
  send_line-Attempt s line (some c) w log h = written-Attempt s c line log (net.write c line w) h
  send_line-Attempt s line none w log h =
      dialled (net.dial s.network s.addr s.tls w).0 (net.dial s.network s.addr s.tls w).1
    where
      dialled :
          (d : Dialled Conn) (w' : W)
          → Attempt s line log (first_dialled (logging net) s line (d, (w', log)))
      dialled (refused e) w' = (refl, refl, refl)
      dialled (opened c) w' =
          written-Attempt (record s { conn = some c }) c line log (net.write c line w') h

  -- The results of `Emit` for records in a row, and what is left after them.
  pub run :
      Encode
      → NetSink Conn
      → List Record
      → W × List Bytes
      → List (Option Error) × NetSink Conn × (W × List Bytes)
  unfolding emit
  run enc s [] wl = ([], s, wl)
  run enc s (r ∷ rs) wl =
      let (e, s', wl') = emit (logging net) enc s r wl in
      let (es, s'', wl'') = run enc s' rs wl' in (e ∷ es, s'', wl'')

  -- The lines that the results say were written, the last one first: those of the records at or
  -- above the level for which `Emit` returned nil.
  abbrev pub taken : Encode → Level → List Record → List (Option Error) → List Bytes → List Bytes
  taken enc level [] es log = log
  taken enc level (r ∷ rs) [] log = log
  taken enc level (r ∷ rs) (e ∷ es) log =
      taken enc level rs es (if ltb_ℤ r.level level then log else after_emit e (enc [] r) log)

  abbrev pub errors : List (Option Error) → ℕ
  errors [] = 0
  errors (e ∷ es) = one_if_error e + errors es

  emit_below :
      (enc : Encode) (s : NetSink Conn) (r : Record) (wl : W × List Bytes)
      → ltb_ℤ r.level s.min_lvl ≡ true
      → emit (logging net) enc s r wl ≡ (none, s, wl)
  unfolding emit
  emit_below enc s r wl h = rw h refl

  emit_sends :
      (enc : Encode) (s : NetSink Conn) (r : Record) (wl : W × List Bytes)
      → ltb_ℤ r.level s.min_lvl ≡ false
      → emit (logging net) enc s r wl ≡ send_line (logging net) s (enc [] r) s.conn wl
  unfolding emit
  emit_sends enc s r wl h = rw h refl

  Ran :
      Encode
      → NetSink Conn
      → List Record
      → List Bytes
      → List (Option Error) × NetSink Conn × (W × List Bytes)
      → Type 0
  Ran enc s rs log (es, s', wl) =
      (wl.1 ≡ taken enc s.min_lvl rs es log) × (s'.dropped ≡ (s.dropped + errors es) % 2 ^ 64)

  run-Ran :
      (enc : Encode) (s : NetSink Conn) (rs : List Record) (w : W) (log : List Bytes)
      → s.dropped < 2 ^ 64
      → Ran enc s rs log (run enc s rs (w, log))
  unfolding run Ran
  run-Ran enc s [] w log h = (refl, omega arith)
  run-Ran enc s (r ∷ rs) w log h = elim (Bool-cases (ltb_ℤ r.level s.min_lvl)) [
    | inl below ↦
        let rest = run-Ran enc s rs w log h in
        rw (emit_below enc s r (w, log) below, below) (rest.0, omega (arith, rest.1))
    | inr sends ↦
        let out = send_line (logging net) s (enc [] r) s.conn (w, log) in
        let one = send_line-Attempt s (enc [] r) s.conn w log h in
        let rest = run-Ran enc out.1 rs out.2.0 out.2.1 (omega (arith, one.1)) in
        let es = (run enc out.1 rs out.2).0 in
        rw (emit_sends enc s r (w, log) sends, sends)
          (
            rest.0 ∙ ap₂ (λ level l. taken enc level rs es l) one.2 one.0,
            omega (arith, rest.1, one.1),
          )
  ]

  -- However the network behaves, for any records in a row: the successful writes are one for each
  -- record at or above the level for which `Emit` returned nil, of that record's line and in that
  -- order, and no other; and every other such record is counted in `Dropped`, modulo 2^64.
  pub emit_accounted :
      (enc : Encode) (s : NetSink Conn) (rs : List Record) (w : W)
      → s.dropped < 2 ^ 64
      → let (es, s', wl) = run enc s rs (w, []) in
        (wl.1 ≡ taken enc s.min_lvl rs es []) × (s'.dropped ≡ (s.dropped + errors es) % 2 ^ 64)
  unfolding Ran
  emit_accounted enc s rs w h = run-Ran enc s rs w [] h
