-- ===== src/Audit.antt =====
-- audit.go: the hash-chained sink and its verifier. `sha` stands for the hexadecimal text of
-- crypto/sha256 of some bytes.
pub mod Chain
pub mod Verify
use logger.Base.{
  ℕ, zero, suc, ◌+◌, ◌*◌, ◌%◌, ◌^◌, Bool, true, false, not, ◌||◌, Option, none, some, List, [], ◌∷◌,
  ◌++◌, Bytes, bytes, bytes_eq, if◌then◌else◌, ltb, leb, ◌==◌, length, replicate, ℤ, pos, negsuc,
  decimal, parse_uint, to_i64,
}
use logger.Record.{Record}
use logger.Sink.{Error, Writer, Encode}

abbrev pub genesis_hash : Bytes
genesis_hash = replicate 64 b'0'

-- `seq` and `prev` of an `AuditSink`.
pub record Audit : Type 0 where
  pub seq : ℕ
  pub prev : Bytes

unfoldable pub new_audit_sink : Audit
new_audit_sink = record { seq = 0; prev = genesis_hash }

-- The loop that cuts line feeds off the end.
abbrev pub cons_trimmed : ℕ → Bytes → Bytes
cons_trimmed c [] = if c == b'\n' then [] else c ∷ []
cons_trimmed c (d ∷ t) = c ∷ d ∷ t

unfoldable pub trim_newlines : Bytes → Bytes
trim_newlines [] = []
trim_newlines (c ∷ cs) = cons_trimmed c (trim_newlines cs)

-- `"%s %s %d "` and the canonical bytes.
unfoldable pub line_body : Bytes → Bytes → ℕ → Bytes → Bytes
line_body sum prev seq canonical =
    sum ++ (b' ' ∷ (prev ++ (b' ' ∷ (decimal seq ++ (b' ' ∷ canonical)))))

-- The line that `Emit` writes.
unfoldable pub audit_line : Bytes → Bytes → ℕ → Bytes → Bytes
unfolding line_body
audit_line sum prev seq canonical = line_body sum prev seq canonical ++ (b'\n' ∷ [])

-- The segments of a line between spaces, four at most: `strings.SplitN(line, " ", 4)` with `n`
-- cuts left.
abbrev pub cons_part : ℕ → List Bytes → List Bytes
cons_part c [] = (c ∷ []) ∷ []
cons_part c (p ∷ ps) = (c ∷ p) ∷ ps

unfoldable pub split_spaces : ℕ → Bytes → List Bytes
split_spaces n [] = [] ∷ []
split_spaces zero (c ∷ cs) = (c ∷ cs) ∷ []
split_spaces (suc n) (c ∷ cs) =
    let cut = split_spaces n cs in
    let on = cons_part c (split_spaces (suc n) cs) in if c == b' ' then [] ∷ cut else on

-- bufio.ScanLines: lines end at a line feed, one carriage return in front of it is cut off, and a
-- last line need not end.
unfoldable pub split_lines : Bytes → List Bytes
split_lines [] = []
split_lines (c ∷ cs) =
    let rest = split_lines cs in if c == b'\n' then [] ∷ rest else cons_part c rest

abbrev pub cons_cut : ℕ → Bytes → Bytes → Bytes
cons_cut c [] t = if c == b'\r' then [] else c ∷ []
cons_cut c (d ∷ ds) t = c ∷ t

unfoldable pub drop_cr : Bytes → Bytes
drop_cr [] = []
drop_cr (c ∷ cs) = cons_cut c cs (drop_cr cs)

pub data Reason : Type 0 where
  intact malformed_line seq_not_contiguous prev_mismatch hash_mismatch read_error : Reason

pub record AuditResult : Type 0 where
  pub records : ℕ
  pub ok : Bool
  pub broken_at_seq : ℤ
  pub reason : Reason

abbrev pub broken : ℕ → ℕ → Reason → AuditResult
broken n at reason = record { records = n; ok = false; broken_at_seq = to_i64 at; reason = reason }

abbrev pub whole : ℕ → AuditResult
whole n = record { records = n; ok = true; broken_at_seq = negsuc 0; reason = intact }

-- The longest line that the scanner's buffer takes is one byte shorter.
abbrev pub max_line : ℕ
max_line = 8 * 1024 * 1024

-- How the scan ends, at the end of the input: with the reader's error, if it has one.
abbrev pub at_end : ℕ → Option Error → AuditResult
at_end n none = whole n
at_end n (some e) = broken n n read_error

-- The tests on a line, in the order of the code: what they let through is the line's hash.
pub data Checked : Type 0 where
  bad : ℕ → Reason → Checked
  good : Bytes → Checked

abbrev pub after_check : ℕ → (Bytes → AuditResult) → Checked → AuditResult
after_check n next (bad at why) = broken n at why
after_check n next (good h) = next h

module _ (sha : Bytes → Bytes) where
  -- `Emit`; the chain moves on whether or not the write fails.
  unfoldable pub emit :
      {W : Type 0} → Writer W → Encode → Audit → Record → W → Option Error × Audit × W
  unfolding trim_newlines audit_line
  emit wr enc a r w =
      let canonical = trim_newlines (enc [] r) in
      let sum = sha (a.prev ++ canonical) in
      let (err, w') = wr.write (audit_line sum a.prev a.seq canonical) w in
      (err, record { seq = (a.seq + 1) % 2 ^ 64; prev = sum }, w')

  check_hashes : ℕ → Bytes → Bytes → Bytes → Bytes → Checked
  check_hashes seq prev got_hash got_prev canonical =
      if not (bytes_eq got_prev prev)
      then bad seq prev_mismatch
      else if not (bytes_eq (sha (prev ++ canonical)) got_hash)
      then bad seq hash_mismatch
      else good got_hash

  check_seq : ℕ → Bytes → Bytes → Bytes → Bytes → Option ℕ → Checked
  check_seq n prev got_hash got_prev canonical none = bad n seq_not_contiguous
  check_seq n prev got_hash got_prev canonical (some seq) =
      if not (seq == n)
      then bad n seq_not_contiguous
      else check_hashes seq prev got_hash got_prev canonical

  unfoldable pub check_parts : ℕ → Bytes → List Bytes → Checked
  unfolding check_seq check_hashes
  check_parts n prev (got_hash ∷ got_prev ∷ seq ∷ canonical ∷ []) =
      check_seq n prev got_hash got_prev canonical (parse_uint seq)
  check_parts n prev _ = bad n malformed_line

  -- The loop of `VerifyAudit` over the lines, from line `n` and the hash `prev` on.
  unfoldable pub verify_lines : ℕ → Bytes → Option Error → List Bytes → AuditResult
  unfolding check_parts split_spaces drop_cr
  verify_lines n prev err [] = at_end n err
  verify_lines n prev err (l ∷ ls) =
      let next = λ (h : Bytes). verify_lines ((n + 1) % 2 ^ 64) h err ls in
      if leb max_line (length l)
      then broken n n read_error
      else after_check n next (check_parts n prev (split_spaces 3 (drop_cr l)))

  -- `VerifyAudit`, on the bytes of a reader and the error that it may end with.
  unfoldable pub verify_audit : Bytes → Option Error → AuditResult
  unfolding verify_lines split_lines
  verify_audit input err = verify_lines 0 genesis_hash err (split_lines input)
