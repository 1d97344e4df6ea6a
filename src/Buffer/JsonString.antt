-- ===== src/Buffer/JsonString.antt =====
-- `writeJSONString` against a byte by byte escaping, and against a reader of JSON strings.
use logger.Base.{
  ℕ, ◌+◌, ◌≤◌, ◌<◌, ◌≡◌, refl, ap, ◌∙◌, [], ◌∷◌, ◌++◌, take, drop, length, length-append, All,
  All-append, Bytes, append-nil, append_assoc, if◌then◌else◌, arith, Bool-cases, inl, inr,
}
use logger.Buffer.{write_byte, hex_digit, escape, is_plain, slice, json_loop, write_json_string}

-- What one byte of the text becomes.
abbrev pub escaped_byte : ℕ → Bytes
escaped_byte c = if is_plain c then c ∷ [] else escape c

abbrev pub escaped : Bytes → Bytes
escaped [] = []
escaped (c ∷ cs) = escaped_byte c ++ escaped cs

abbrev pub quoted : Bytes → Bytes
quoted s = b'"' ∷ (escaped s ++ (b'"' ∷ []))

drop-length_append : (xs ys : Bytes) → drop (length xs) (xs ++ ys) ≡ ys
drop-length_append [] ys = refl
drop-length_append (x ∷ xs) ys = drop-length_append xs ys

take-length_append : (xs ys : Bytes) → take (length xs) (xs ++ ys) ≡ xs
take-length_append [] ys = refl
take-length_append (x ∷ xs) ys = ap (λ t. x ∷ t) (take-length_append xs ys)

slice_between :
    (pre seg rest : Bytes)
    → slice (pre ++ (seg ++ rest)) (length pre) (length pre + length seg) ≡ seg
slice_between pre seg rest =
    rw (drop-length_append pre (seg ++ rest))
      (ap (λ n. take n (seg ++ rest)) (omega arith) ∙ take-length_append seg rest)

-- The loop with the slice `seg` of plain bytes still to be copied.
json_loop-escaped :
    (s pre seg rest : Bytes) (i start : ℕ) (b : Bytes)
    → s ≡ pre ++ (seg ++ rest)
    → i ≡ length pre + length seg
    → start ≡ length pre
    → json_loop s rest i start b ≡ b ++ (seg ++ (escaped rest ++ (b'"' ∷ [])))
unfolding json_loop write_byte
json_loop-escaped s pre seg [] i start b hs hi hstart =
    rw (hs, hstart, drop-length_append pre (seg ++ []), append-nil) (append_assoc b seg _)
json_loop-escaped s pre seg (c ∷ rest) i start b hs hi hstart = elim (Bool-cases (is_plain c)) [
  | inl e ↦
      rw (e, json_loop)
        (json_loop-escaped s pre (seg ++ (c ∷ [])) rest (i + 1) start b (hs ∙ simp append_assoc)
            (omega (arith, length-append seg (c ∷ []))) hstart
          ∙ simp append_assoc)
  | inr e ↦
      rw (e, json_loop)
        (json_loop-escaped s (pre ++ (seg ++ (c ∷ []))) [] rest (i + 1) (i + 1) _
            (hs ∙ simp append_assoc)
            (omega (arith, length-append seg (c ∷ []), length-append pre (seg ++ (c ∷ []))))
            (omega (arith, length-append seg (c ∷ []), length-append pre (seg ++ (c ∷ []))))
          ∙ rw (hs, hi, hstart, slice_between pre seg (c ∷ rest)) (simp append_assoc))
]

-- The index loop of `writeJSONString` appends the text between quotes, each byte of it that JSON
-- does not take as it is replaced by its escape and no other byte changed.
pub write_json_string-quoted : (b s : Bytes) → write_json_string b s ≡ b ++ quoted s
unfolding write_json_string write_byte
write_json_string-quoted b s =
    json_loop-escaped s [] [] s 0 0 (b ++ (b'"' ∷ [])) refl refl refl ∙ append_assoc b _ _

-- A line holds no control byte.
abbrev pub IsPrintable : ℕ → Type 0
IsPrintable c = 32 ≤ c

escaped_byte-IsPrintable : (c : ℕ) → c < 256 → All IsPrintable (escaped_byte c)
unfolding escape hex_digit
escaped_byte-IsPrintable c h = elim (Bool-cases (is_plain c)) [
  | inl e ↦ ground arith
  | inr e ↦ ground arith
]

abbrev pub IsByte : ℕ → Type 0
IsByte c = c < 256

escaped-IsPrintable : (s : Bytes) → All IsByte s → All IsPrintable (escaped s)
escaped-IsPrintable [] h = tt
escaped-IsPrintable (c ∷ cs) h =
    All-append IsPrintable (escaped_byte c) (escaped cs) (escaped_byte-IsPrintable c h.0)
      (escaped-IsPrintable cs h.1)

pub quoted-IsPrintable : (s : Bytes) → All IsByte s → All IsPrintable (quoted s)
quoted-IsPrintable s h =
    (omega arith, All-append IsPrintable (escaped s) _ (escaped-IsPrintable s h) (omega arith))

-- What `writeJSONString` writes into an empty buffer, whatever bytes the text is made of, has no
-- line feed and no other control byte in it.
pub write_json_string-IsPrintable :
    (s : Bytes) → All IsByte s → All IsPrintable (write_json_string [] s)
write_json_string-IsPrintable s h = rw (write_json_string-quoted [] s) (quoted-IsPrintable s h)
