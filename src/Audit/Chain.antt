-- ===== src/Audit/Chain.antt =====
-- What the audit sink writes is what the verifier accepts.
use logger.Base.{
  ℕ, zero, suc, ◌+◌, ◌%◌, ◌^◌, ◌<◌, ◌≡◌, refl, sym, ap, ◌∙◌, ◌≢◌, Bool, false, none, List, [], ◌∷◌,
  ◌++◌, append_assoc, append-nil, Bytes, bytes_eq_iff, leb, ◌==◌, length, All, decimal,
  decimal-IsDigit, IsDigit, parse_uint-decimal, arith,
}
use logger.Record.{Record}
use logger.Sink.{Writer, Encode}
use logger.Audit.{
  Audit, new_audit_sink, genesis_hash, trim_newlines, line_body, audit_line, split_spaces,
  split_lines, drop_cr, whole, max_line, emit, check_parts, good, verify_lines, verify_audit,
}

abbrev pub NoSpace : Bytes → Type 0
NoSpace = All (λ c. c ≢ b' ')

abbrev pub NoNewline : Bytes → Type 0
NoNewline = All (λ c. c ≢ b'\n')

abbrev pub ends_cr : Bytes → Bool
ends_cr [] = false
ends_cr (c ∷ []) = c == b'\r'
ends_cr (c ∷ d ∷ t) = ends_cr (d ∷ t)

pub split_lines-line :
    (a rest : Bytes) → NoNewline a → split_lines (a ++ (b'\n' ∷ rest)) ≡ a ∷ split_lines rest
unfolding split_lines
split_lines-line [] rest h = refl
split_lines-line (c ∷ a) rest h = ground (arith, h.0, split_lines-line a rest h.1)

split_spaces-zero : (s : Bytes) → split_spaces zero s ≡ s ∷ []
unfolding split_spaces
split_spaces-zero [] = refl
split_spaces-zero (c ∷ cs) = refl

split_spaces-part :
    (n : ℕ) (a rest : Bytes)
    → NoSpace a
    → split_spaces (suc n) (a ++ (b' ' ∷ rest)) ≡ a ∷ split_spaces n rest
unfolding split_spaces
split_spaces-part n [] rest h = refl
split_spaces-part n (c ∷ a) rest h = ground (arith, h.0, split_spaces-part n a rest h.1)

drop_cr_none : (l : Bytes) → ends_cr l ≡ false → drop_cr l ≡ l
unfolding drop_cr
drop_cr_none [] h = refl
drop_cr_none (c ∷ []) h = ground arith
drop_cr_none (c ∷ d ∷ t) h = ap (λ u. c ∷ u) (drop_cr_none (d ∷ t) h)

ends_cr-append : (a b : Bytes) (c : ℕ) → ends_cr (a ++ (c ∷ b)) ≡ ends_cr (c ∷ b)
ends_cr-append [] b c = refl
ends_cr-append (x ∷ []) b c = refl
ends_cr-append (x ∷ y ∷ a) b c = ends_cr-append (y ∷ a) b c

ends_cr_space : (c : Bytes) → ends_cr c ≡ false → ends_cr (b' ' ∷ c) ≡ false
ends_cr_space [] h = refl
ends_cr_space (c ∷ cs) h = h

digits-NoSpace : (s : Bytes) → All IsDigit s → NoSpace s × NoNewline s
digits-NoSpace [] h = (tt, tt)
digits-NoSpace (c ∷ cs) h =
    let rest = digits-NoSpace cs h.1 in ((omega arith, rest.0), (omega arith, rest.1))

NoNewline-append : (a b : Bytes) → NoNewline a → NoNewline b → NoNewline (a ++ b)
NoNewline-append [] b h k = k
NoNewline-append (c ∷ a) b h k = (h.0, NoNewline-append a b h.1 k)

-- A record's canonical bytes can stand on a line of the stream.
abbrev pub IsCanonical : Bytes → Type 0
IsCanonical c = NoNewline c × (ends_cr c ≡ false)

line_body-ends_cr :
    (sum prev : Bytes) (n : ℕ) (c : Bytes)
    → ends_cr c ≡ false
    → ends_cr (line_body sum prev n c) ≡ false
unfolding line_body
line_body-ends_cr sum prev n c h =
    ends_cr-append sum _ b' '
    ∙ ends_cr-append (b' ' ∷ prev) _ b' '
    ∙ ends_cr-append (b' ' ∷ decimal n) c b' '
    ∙ ends_cr_space c h

line_body-NoNewline :
    (sum prev : Bytes) (n : ℕ) (c : Bytes)
    → NoNewline sum
    → NoNewline prev
    → NoNewline c
    → NoNewline (line_body sum prev n c)
unfolding line_body
line_body-NoNewline sum prev n c hs hp hc =
    let digits = (digits-NoSpace (decimal n) (decimal-IsDigit n)).1 in
    NoNewline-append sum _ hs (
      omega arith,
      NoNewline-append prev _ hp
          (omega arith, NoNewline-append (decimal n) _ digits (omega arith, hc)),
    )

line_body-parts :
    (sum prev : Bytes) (n : ℕ) (c : Bytes)
    → NoSpace sum
    → NoSpace prev
    → split_spaces 3 (line_body sum prev n c) ≡ sum ∷ prev ∷ decimal n ∷ c ∷ []
unfolding line_body
line_body-parts sum prev n c hs hp =
    split_spaces-part 2 sum _ hs
    ∙ ap (λ t. sum ∷ t)
        (split_spaces-part 1 prev _ hp
          ∙ ap (λ t. prev ∷ t)
              (split_spaces-part 0 (decimal n) c (digits-NoSpace (decimal n) (decimal-IsDigit n)).0
                ∙ ap (λ t. decimal n ∷ t) (split_spaces-zero c)))

audit_line-append :
    (sum prev : Bytes) (n : ℕ) (c rest : Bytes)
    → audit_line sum prev n c ++ rest ≡ line_body sum prev n c ++ (b'\n' ∷ rest)
unfolding audit_line
audit_line-append sum prev n c rest = append_assoc (line_body sum prev n c) (b'\n' ∷ []) rest

-- A writer that keeps what is written to it.
abbrev pub memory : Writer Bytes
memory = record { write = λ p w. (none, w ++ p); sync = none; close = none }

module _ (sha : Bytes → Bytes) where
  abbrev pub next_seq : ℕ → ℕ
  next_seq n = (n + 1) % 2 ^ 64

  -- The stream of some canonical texts, from a hash and a sequence number on.
  abbrev pub stream : Bytes → ℕ → List Bytes → Bytes
  stream prev n [] = []
  stream prev n (c ∷ cs) =
      let sum = sha (prev ++ c) in audit_line sum prev n c ++ stream sum (next_seq n) cs

  -- None of its lines is too long for the verifier's scanner.
  abbrev pub AllFit : Bytes → ℕ → List Bytes → Type 0
  AllFit prev n [] = Unit {0}
  AllFit prev n (c ∷ cs) =
      let sum = sha (prev ++ c) in
      (length (line_body sum prev n c) < max_line) × AllFit sum (next_seq n) cs

  abbrev pub canonicals : Encode → List Record → List Bytes
  canonicals enc [] = []
  canonicals enc (r ∷ rs) = trim_newlines (enc [] r) ∷ canonicals enc rs

  -- The sink and the bytes written after some emissions.
  unfoldable pub emit_all : Encode → Audit → List Record → Bytes → Audit × Bytes
  unfolding emit
  emit_all enc a [] w = (a, w)
  emit_all enc a (r ∷ rs) w = let (err, a', w') = emit sha memory enc a r w in emit_all enc a' rs w'

  emit_all-stream :
      (enc : Encode) (a : Audit) (rs : List Record) (w : Bytes)
      → (emit_all enc a rs w).1 ≡ w ++ stream a.prev a.seq (canonicals enc rs)
  unfolding emit_all
  emit_all-stream enc a [] w = sym (append-nil w)
  emit_all-stream enc a (r ∷ rs) w =
      let c = trim_newlines (enc [] r) in
      let sum = sha (a.prev ++ c) in
      emit_all-stream enc (record { seq = next_seq a.seq; prev = sum }) rs
        (w ++ audit_line sum a.prev a.seq c)
      ∙ append_assoc w _ _

  check_parts_good :
      (n : ℕ) (prev c : Bytes)
      → n < 2 ^ 64
      → check_parts sha n prev (sha (prev ++ c) ∷ prev ∷ decimal n ∷ c ∷ [])
        ≡ good (sha (prev ++ c))
  unfolding check_parts
  check_parts_good n prev c h =
      rw (parse_uint-decimal n h)
        (ground (arith, bytes_eq_iff prev prev, bytes_eq_iff (sha (prev ++ c)) (sha (prev ++ c))))

  module _ (clean : (x : Bytes) → NoSpace (sha x) × NoNewline (sha x)) where
    verify_line :
        (n : ℕ) (prev c : Bytes) (ls : List Bytes)
        → n < 2 ^ 64
        → NoSpace prev
        → IsCanonical c
        → length (line_body (sha (prev ++ c)) prev n c) < max_line
        → verify_lines sha n prev none (line_body (sha (prev ++ c)) prev n c ∷ ls)
          ≡ verify_lines sha (next_seq n) (sha (prev ++ c)) none ls
    unfolding verify_lines
    verify_line n prev c ls small p h fit =
        let sum = sha (prev ++ c) in
        let short : leb max_line (length (line_body sum prev n c)) ≡ false = ground arith in
        let checked : check_parts sha n prev (split_spaces 3 (drop_cr (line_body sum prev n c)))
            ≡ good sum =
          ap (λ l. check_parts sha n prev (split_spaces 3 l))
            (drop_cr_none (line_body sum prev n c) (line_body-ends_cr sum prev n c h.1))
          ∙ ap (check_parts sha n prev) (line_body-parts sum prev n c (clean (prev ++ c)).0 p)
          ∙ check_parts_good n prev c small in
        rw (short, checked, verify_lines) refl

    verify_stream :
        (n : ℕ) (prev : Bytes) (cs : List Bytes)
        → n + length cs < 2 ^ 64
        → NoSpace prev
        → NoNewline prev
        → All IsCanonical cs
        → AllFit prev n cs
        → verify_lines sha n prev none (split_lines (stream prev n cs)) ≡ whole (n + length cs)
    verify_stream n prev [] small ps pn h fit =
        unfold verify_lines split_lines in ap whole (omega arith)
    verify_stream n prev (c ∷ cs) small ps pn h fit =
        let sum = sha (prev ++ c) in
        let rest = stream sum (next_seq n) cs in
        let texts = clean (prev ++ c) in
        let body = line_body sum prev n c in
        let first : split_lines (audit_line sum prev n c ++ rest) ≡ body ∷ split_lines rest =
          ap split_lines (audit_line-append sum prev n c rest)
          ∙ split_lines-line body rest (line_body-NoNewline sum prev n c texts.1 pn h.0.0) in
        ap (verify_lines sha n prev none) first
        ∙ verify_line n prev c (split_lines rest) (omega arith) ps h.0 fit.0
        ∙ verify_stream (next_seq n) sum cs (omega arith) texts.0 texts.1 h.1 fit.1
        ∙ ap whole (omega arith)

    zeros_clean : NoSpace genesis_hash × NoNewline genesis_hash
    zeros_clean = (omega arith, omega arith)

    -- The verifier accepts what the sink wrote: the stream of any records up to 2^64, whose
    -- canonical texts hold no line feed and end in no carriage return and whose lines fit the
    -- scanner, is found whole, with the number of the records. Of the hash it is used that its
    -- text has no space and no line feed.
    pub verify_audit-emit_all :
        (enc : Encode) (rs : List Record)
        → length (canonicals enc rs) < 2 ^ 64
        → All IsCanonical (canonicals enc rs)
        → AllFit genesis_hash 0 (canonicals enc rs)
        → verify_audit sha (emit_all enc new_audit_sink rs []).1 none
          ≡ whole (length (canonicals enc rs))
    unfolding verify_audit new_audit_sink
    verify_audit-emit_all enc rs small h fit =
        let cs = canonicals enc rs in
        ap (λ s. verify_lines sha 0 genesis_hash none (split_lines s))
          (emit_all-stream enc new_audit_sink rs [])
        ∙ verify_stream 0 genesis_hash cs (omega arith) zeros_clean.0 zeros_clean.1 h fit
        ∙ ap whole (omega arith)
