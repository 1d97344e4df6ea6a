-- ===== src/Buffer.antt =====
-- buffer.go: the byte builder that encoders write into. A `*buffer` is the bytes of its field `b`;
-- a method returns the bytes after it. The pool behind getBuffer is not modelled: a buffer that it
-- hands out is empty.
pub mod JsonString
pub mod Reader
use logger.Base.{
  ℕ, ◌+◌, ◌-◌, ◌/◌, ◌%◌, Bool, true, false, not, ◌&&◌, List, [], ◌∷◌, ◌++◌, take, drop, Bytes,
  bytes, if◌then◌else◌, ltb, leb, ◌==◌, ℤ, decimal, append_int,
}

unfoldable pub write_string : Bytes → Bytes → Bytes
write_string b s = b ++ s

unfoldable pub write_byte : Bytes → ℕ → Bytes
write_byte b c = b ++ (c ∷ [])

unfoldable pub write_int : Bytes → ℤ → Bytes
unfolding append_int
write_int b i = b ++ append_int i

unfoldable pub write_uint : Bytes → ℕ → Bytes
unfolding decimal
write_uint b u = b ++ decimal u

unfoldable pub write_bool : Bytes → Bool → Bytes
write_bool b true = b ++ bytes "true"
write_bool b false = b ++ bytes "false"

-- Bytes wrap at 256.
unfoldable pub hex_digit : ℕ → ℕ
hex_digit n = if ltb n 10 then (b'0' + n) % 256 else (b'a' + n + 246) % 256

-- What the `switch` of `writeJSONString` appends for a byte that needs an escape.
unfoldable pub escape : ℕ → Bytes
unfolding hex_digit
escape c =
    if c == b'"'
    then b'\\' ∷ b'"' ∷ []
    else if c == b'\\'
    then b'\\' ∷ b'\\' ∷ []
    else if c == b'\n'
    then b'\\' ∷ b'n' ∷ []
    else if c == b'\r'
    then b'\\' ∷ b'r' ∷ []
    else if c == b'\t'
    then b'\\' ∷ b't' ∷ []
    else b'\\' ∷ b'u' ∷ b'0' ∷ b'0' ∷ hex_digit (c / 16) ∷ hex_digit (c % 16) ∷ []

-- The test before `continue`.
abbrev pub is_plain : ℕ → Bool
is_plain c = leb 0x20 c && not (c == b'"') && not (c == b'\\')

-- `s[start:i]`
abbrev pub slice : Bytes → ℕ → ℕ → Bytes
slice s start i = take (i - start) (drop start s)

-- The loop over `s`, of which `rest` are the bytes from index `i` on, and what follows it.
unfoldable pub json_loop : Bytes → Bytes → ℕ → ℕ → Bytes → Bytes
json_loop s [] i start b = write_byte (b ++ drop start s) b'"'
json_loop s (c ∷ rest) i start b = elim (is_plain c) [
  | true ↦ json_loop s rest (i + 1) start b
  | false ↦ json_loop s rest (i + 1) (i + 1) ((b ++ slice s start i) ++ escape c)
]

unfoldable pub write_json_string : Bytes → Bytes → Bytes
unfolding write_byte json_loop escape
write_json_string b s = json_loop s s 0 0 (write_byte b b'"')
