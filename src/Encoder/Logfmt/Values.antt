-- ===== src/Encoder/Logfmt/Values.antt =====
-- A reader of logfmt values, and the round trip.
use logger.Base.{
  ℕ, ◌≡◌, refl, ap, Bool, true, false, ◌||◌, Option, none, some, [], ◌∷◌, ◌++◌, Bytes,
  if◌then◌else◌, ◌==◌, Bool-cases, inl, inr, arith,
}
use logger.Buffer.{write_string, write_json_string}
use logger.Buffer.JsonString.{write_json_string-quoted}
use logger.Buffer.Reader.{read_json_string, read-quoted}
use logger.Encoder.Logfmt.{is_special, contains_special, logfmt_needs_quote, write_logfmt_value}

-- The bytes that end a value without quotes.
abbrev pub ends_value : ℕ → Bool
ends_value c = (c == b' ') || (c == b'\n')

bare : Bytes → Bytes × Bytes
bare [] = ([], [])
bare (c ∷ cs) =
    let (value, rest) = bare cs in if ends_value c then ([], c ∷ cs) else (c ∷ value, rest)

-- A value in quotes is a JSON string, and any other goes up to a space or a line feed.
pub read_value : Bytes → Option (Bytes × Bytes)
unfolding bare
read_value [] = none
read_value (c ∷ cs) = if c == b'"' then read_json_string (c ∷ cs) else some (bare (c ∷ cs))

bare-append :
    (s : Bytes) (d : ℕ) (rest : Bytes)
    → contains_special s ≡ false
    → ends_value d ≡ true
    → bare (s ++ (d ∷ rest)) ≡ (s, d ∷ rest)
unfolding bare contains_special is_special
bare-append [] d rest h e = rw e refl
bare-append (c ∷ cs) d rest h e =
    let plain : ends_value c ≡ false = ground arith in
    let others : contains_special cs ≡ false = ground arith in
    rw (plain, bare-append cs d rest others e) refl

read_value_plain :
    (c : ℕ) (cs : Bytes) (d : ℕ) (rest : Bytes)
    → contains_special (c ∷ cs) ≡ false
    → ends_value d ≡ true
    → read_value ((c ∷ cs) ++ (d ∷ rest)) ≡ some (c ∷ cs, d ∷ rest)
unfolding read_value contains_special is_special
read_value_plain c cs d rest h e =
    let unquoted : (c == b'"') ≡ false = ground arith in
    rw unquoted (ap some (bare-append (c ∷ cs) d rest h e))

read_value-quoted : (s rest : Bytes) → read_value (write_json_string [] s ++ rest) ≡ some (s, rest)
unfolding read_value
read_value-quoted s rest = rw (write_json_string-quoted [] s) (read-quoted s rest)

-- What `writeLogfmtValue` writes into an empty buffer, with a space or a line feed and any bytes
-- behind it, is read back as exactly the text that was written, and the reader stops right behind
-- it, whether or not the text was put in quotes.
pub read_value-write_logfmt_value :
    (s : Bytes) (d : ℕ) (rest : Bytes)
    → ends_value d ≡ true
    → read_value (write_logfmt_value [] s ++ (d ∷ rest)) ≡ some (s, d ∷ rest)
unfolding write_logfmt_value logfmt_needs_quote write_string
read_value-write_logfmt_value [] d rest e = read_value-quoted [] (d ∷ rest)
read_value-write_logfmt_value (c ∷ cs) d rest e = elim (Bool-cases (contains_special (c ∷ cs))) [
  | inl q ↦ rw q (read_value-quoted (c ∷ cs) (d ∷ rest))
  | inr p ↦ rw p (read_value_plain c cs d rest p e)
]
