-- ===== src/Buffer/Reader.antt =====
-- A reader of JSON strings (RFC 8259, section 7), independent of the writer, and the round trip.
use logger.Base.{
  ℕ, zero, suc, ◌+◌, ◌-◌, ◌*◌, ◌/◌, ◌%◌, ◌<◌, ◌≡◌, refl, ap, ◌∙◌, true, false, ◌&&◌, ◌||◌, [], ◌∷◌,
  ◌++◌, Bytes, append-nil, append_assoc, if◌then◌else◌, ltb, leb, ◌==◌, arith, Bool-cases, inl, inr,
  Option, none, some,
}
use logger.Buffer.{hex_digit, escape, is_plain, write_json_string}
use logger.Buffer.JsonString.{escaped_byte, escaped, quoted, write_json_string-quoted}

-- Inside a string, behind a backslash, or with `k + 1` hexadecimal digits of a code still to come.
data Mode : Type 0 where
  inside : Mode
  behind : Mode
  hex : ℕ → ℕ → Mode

data Next : Type 0 where
  closed : Next
  refused : Next
  go : Mode → Bytes → Next

hex_value : ℕ → Option ℕ
hex_value c =
    if leb b'0' c && leb c b'9'
    then some (c - b'0')
    else if leb b'a' c && leb c b'f'
    then some (c - b'a' + 10)
    else if leb b'A' c && leb c b'F'
    then some (c - b'A' + 10)
    else none

-- A code above ASCII stands for several bytes; the writer makes none, and the reader refuses it.
abbrev code_point : ℕ → Bytes → Next
code_point v out = if ltb v 128 then go inside (out ++ (v ∷ [])) else refused

abbrev hex_step : ℕ → ℕ → Bytes → Option ℕ → Next
hex_step k v out none = refused
hex_step zero v out (some d) = code_point (v * 16 + d) out
hex_step (suc k) v out (some d) = go (hex k (v * 16 + d)) out

step : Mode → Bytes → ℕ → Next
unfolding hex_value
step inside out c =
    if c == b'"'
    then closed
    else if c == b'\\'
    then go behind out
    else if ltb c 32
    then refused
    else go inside (out ++ (c ∷ []))
step behind out c =
    if c == b'"' || c == b'\\' || c == b'/'
    then go inside (out ++ (c ∷ []))
    else if c == b'n'
    then go inside (out ++ (b'\n' ∷ []))
    else if c == b'r'
    then go inside (out ++ (b'\r' ∷ []))
    else if c == b't'
    then go inside (out ++ (b'\t' ∷ []))
    else if c == b'b'
    then go inside (out ++ (8 ∷ []))
    else if c == b'f'
    then go inside (out ++ (12 ∷ []))
    else if c == b'u'
    then go (hex 3 0) out
    else refused
step (hex k v) out c = hex_step k v out (hex_value c)

-- The text up to the closing quote, and what follows it.
read : Mode → Bytes → Bytes → Option (Bytes × Bytes)
read m out [] = none
read m out (c ∷ cs) = elim (step m out c) [
  | closed ↦ some (out, cs)
  | refused ↦ none
  | go m' out' ↦ read m' out' cs
]

abbrev open_quote : ℕ → Bytes → Option (Bytes × Bytes)
open_quote c cs = if c == b'"' then read inside [] cs else none

pub read_json_string : Bytes → Option (Bytes × Bytes)
unfolding read step
read_json_string [] = none
read_json_string (c ∷ cs) = open_quote c cs

hex_value-hex_digit : (n : ℕ) → n < 16 → hex_value (hex_digit n) ≡ some n
unfolding hex_value hex_digit
hex_value-hex_digit n h = ground arith

read_hex :
    (k v d : ℕ) (out rest : Bytes)
    → d < 16
    → read (hex (suc k) v) out (hex_digit d ∷ rest) ≡ read (hex k (v * 16 + d)) out rest
unfolding read step
read_hex k v d out rest h = rw (hex_value-hex_digit d h, read)

read_hex_last :
    (v d : ℕ) (out rest : Bytes)
    → d < 16
    → v * 16 + d < 128
    → read (hex zero v) out (hex_digit d ∷ rest) ≡ read inside (out ++ ((v * 16 + d) ∷ [])) rest
unfolding read step
read_hex_last v d out rest h k = rw (hex_value-hex_digit d h, read) (ground arith)

read_unicode :
    (c : ℕ) (out rest : Bytes)
    → c < 32
    → read inside out (b'\\' ∷ b'u' ∷ b'0' ∷ b'0' ∷ hex_digit (c / 16) ∷ hex_digit (c % 16) ∷ rest)
      ≡ read inside (out ++ (c ∷ [])) rest
unfolding read step hex_value
read_unicode c out rest h =
    read_hex 0 0 (c / 16) out (hex_digit (c % 16) ∷ rest) (omega arith)
    ∙ read_hex_last (0 * 16 + c / 16) (c % 16) out rest (omega arith) (omega arith)
    ∙ ap (λ n. read inside (out ++ (n ∷ [])) rest) (omega arith)

read-escape :
    (c : ℕ) (out rest : Bytes)
    → is_plain c ≡ false
    → read inside out (escape c ++ rest) ≡ read inside (out ++ (c ∷ [])) rest
unfolding escape read step
read-escape c out rest e = ground (arith, read_unicode c out rest)

read_plain :
    (c : ℕ) (out rest : Bytes)
    → is_plain c ≡ true
    → read inside out (c ∷ rest) ≡ read inside (out ++ (c ∷ [])) rest
unfolding read step
read_plain c out rest e = ground arith

read-escaped_byte :
    (c : ℕ) (out rest : Bytes)
    → read inside out (escaped_byte c ++ rest) ≡ read inside (out ++ (c ∷ [])) rest
read-escaped_byte c out rest = elim (Bool-cases (is_plain c)) [
  | inl e ↦ rw e (read_plain c out rest e)
  | inr e ↦ rw e (read-escape c out rest e)
]

read_close : (out rest : Bytes) → read inside out (b'"' ∷ rest) ≡ some (out, rest)
unfolding read step
read_close out rest = refl

read-escaped :
    (s out rest : Bytes) → read inside out (escaped s ++ (b'"' ∷ rest)) ≡ some (out ++ s, rest)
read-escaped [] out rest = rw append-nil (read_close out rest)
read-escaped (c ∷ cs) out rest = rw append_assoc (
    read-escaped_byte c out (escaped cs ++ (b'"' ∷ rest))
    ∙ read-escaped cs (out ++ (c ∷ [])) rest
    ∙ rw append_assoc)

pub read-quoted : (s rest : Bytes) → read_json_string (quoted s ++ rest) ≡ some (s, rest)
unfolding read_json_string
read-quoted s rest = rw append_assoc (read-escaped s [] rest)

-- What `writeJSONString` writes into an empty buffer, with any bytes behind it, is read back as
-- exactly the text that was written, and the reader stops right behind it.
pub read-write_json_string :
    (s rest : Bytes) → read_json_string (write_json_string [] s ++ rest) ≡ some (s, rest)
read-write_json_string s rest = rw (write_json_string-quoted [] s) (read-quoted s rest)
