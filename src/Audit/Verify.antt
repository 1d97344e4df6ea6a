-- ===== src/Audit/Verify.antt =====
-- What an accepted stream proves: its texts are chained by their hashes, and another accepted
-- stream with the same last hash has the same texts, or gives away a weakness of the hash.
use logger.Base.{
  ℕ, ◌+◌, ◌%◌, ◌^◌, ◌≡◌, refl, sym, subst, ap, ap₂, ◌∙◌, ◌≢◌, ◌⊎◌, true, Option, none, some, List,
  [], ◌∷◌, ◌++◌, Bytes, bytes_eq, bytes_eq_iff, leb, length, parse_uint, arith, Bool-cases, inl,
  inr,
}
use mathlib.Core.List.{reverse, reverse-reverse, reverse-cons, append_assoc, append-nil}
use logger.Sink.{Error}
use logger.Audit.{
  after_check, genesis_hash, split_spaces, split_lines, drop_cr, max_line, Checked, good, bad,
  check_hashes, check_seq, check_parts, verify_lines, verify_audit,
}

-- The first and the last of a line's parts.
abbrev hash_of : List Bytes → Bytes
hash_of [] = []
hash_of (h ∷ parts) = h

abbrev text_of : List Bytes → Bytes
text_of (a ∷ b ∷ s ∷ c ∷ []) = c
text_of _ = []

-- The hash of the last line of a stream, or else the hash `h`, and the texts of its lines.
unfoldable pub last_hash : Bytes → List Bytes → Bytes
last_hash h [] = h
last_hash h (l ∷ ls) = last_hash (hash_of (split_spaces 3 (drop_cr l))) ls

unfoldable pub texts : List Bytes → List Bytes
texts [] = []
texts (l ∷ ls) = text_of (split_spaces 3 (drop_cr l)) ∷ texts ls

module _ (sha : Bytes → Bytes) where
  -- A line's parts pass the tests after the hash `prev`, for the text `c`.
  pub record Links (n : ℕ) (prev h : Bytes) (parts : List Bytes) (c : Bytes) : Type 0 where
    pub text : Bytes
    pub shape : parts ≡ h ∷ prev ∷ text ∷ c ∷ []
    pub number : parse_uint text ≡ some n
    pub hashed : h ≡ sha (prev ++ c)

  check_hashes_good :
      (seq : ℕ) (prev got_hash got_prev c h : Bytes)
      → check_hashes sha seq prev got_hash got_prev c ≡ good h
      → (got_prev ≡ prev) × (got_hash ≡ sha (prev ++ c)) × (got_hash ≡ h)
  unfolding check_hashes
  check_hashes_good seq prev got_hash got_prev c h e =
      ground (arith, bytes_eq_iff got_prev prev, bytes_eq_iff (sha (prev ++ c)) got_hash)

  check_seq_good :
      (n : ℕ) (prev got_hash got_prev c h : Bytes) (o : Option ℕ)
      → check_seq sha n prev got_hash got_prev c o ≡ good h
      → (o ≡ some n) × (got_prev ≡ prev) × (got_hash ≡ sha (prev ++ c)) × (got_hash ≡ h)
  unfolding check_seq
  check_seq_good n prev got_hash got_prev c h none e = cc
  check_seq_good n prev got_hash got_prev c h (some seq) e =
      ground (arith, check_hashes_good seq prev got_hash got_prev c h)

  check_parts-Links :
      (n : ℕ) (prev h : Bytes) (parts : List Bytes)
      → check_parts sha n prev parts ≡ good h
      → (c : Bytes) × Links n prev h parts c
  unfolding check_parts
  check_parts-Links n prev h (a ∷ b ∷ s ∷ c ∷ []) e =
      let (number, same_prev, hashed, is) = check_seq_good n prev a b c h (parse_uint s) e in
      (
        c,
        record {
          text = s;
          shape = ap₂ (λ x y. x ∷ y ∷ s ∷ c ∷ []) is same_prev;
          number = number;
          hashed = sym is ∙ hashed;
        },
      )
  check_parts-Links n prev h [] e = cc
  check_parts-Links n prev h (a ∷ []) e = cc
  check_parts-Links n prev h (a ∷ b ∷ []) e = cc
  check_parts-Links n prev h (a ∷ b ∷ s ∷ []) e = cc
  check_parts-Links n prev h (a ∷ b ∷ s ∷ c ∷ d ∷ r) e = cc

  -- The lines of a stream, from number `n` and hash `prev` on, with their texts and the last hash.
  pub data Chain : ℕ → Bytes → List Bytes → List Bytes → Bytes → Type 0 where
    done : {n : ℕ} {prev : Bytes} → Chain n prev [] [] prev
    link :
        {n : ℕ} {prev h last l c : Bytes} {ls cs : List Bytes}
        → Links n prev h (split_spaces 3 (drop_cr l)) c
        → Chain ((n + 1) % 2 ^ 64) h ls cs last
        → Chain n prev (l ∷ ls) (c ∷ cs) last

  Found : ℕ → Bytes → List Bytes → Type 0
  Found n prev ls = (cs : List Bytes) × (last : Bytes) × Chain n prev ls cs last

  past_length :
      (n : ℕ) (prev : Bytes) (err : Option Error) (l : Bytes) (ls : List Bytes)
      → (verify_lines sha n prev err (l ∷ ls)).ok ≡ true
      → (after_check n
          (λ h. verify_lines sha ((n + 1) % 2 ^ 64) h err ls)
          (check_parts sha n prev (split_spaces 3 (drop_cr l)))).ok
        ≡ true
  unfolding verify_lines
  past_length n prev err l ls e = elim (Bool-cases (leb max_line (length l))) [
    | inl long ↦ cc (rw long at e)
    | inr fits ↦ rw fits at e
  ]

  verify_lines-Chain :
      (n : ℕ) (prev : Bytes) (err : Option Error) (ls : List Bytes)
      → (verify_lines sha n prev err ls).ok ≡ true
      → Found n prev ls
  unfolding Found verify_lines
  verify_lines-Chain n prev err [] e = ([], prev, done)
  verify_lines-Chain n prev err (l ∷ ls) e =
      step (check_parts sha n prev (split_spaces 3 (drop_cr l))) refl
        (past_length n prev err l ls e) (λ h. verify_lines-Chain ((n + 1) % 2 ^ 64) h err ls)
    where
      step :
          (o : Checked)
          → check_parts sha n prev (split_spaces 3 (drop_cr l)) ≡ o
          → (after_check n (λ h. verify_lines sha ((n + 1) % 2 ^ 64) h err ls) o).ok ≡ true
          → ((h : Bytes)
              → (verify_lines sha ((n + 1) % 2 ^ 64) h err ls).ok ≡ true
              → Found ((n + 1) % 2 ^ 64) h ls)
          → Found n prev (l ∷ ls)
      step (bad at why) is good_ rest = cc
      step (good h) is good_ rest =
          let (cs, last, chain) = rest h good_ in
          let (c, links) = check_parts-Links n prev h _ is in (c ∷ cs, last, link links chain)

  -- The hash of a chain of texts, the newest first.
  abbrev pub chain_hash : List Bytes → Bytes
  chain_hash [] = genesis_hash
  chain_hash (c ∷ cs) = sha (chain_hash cs ++ c)

  Chain-chain_hash :
      {n : ℕ} {prev last : Bytes} {ls cs : List Bytes} (before : List Bytes)
      → prev ≡ chain_hash before
      → Chain n prev ls cs last
      → last ≡ chain_hash (reverse cs ++ before)
  Chain-chain_hash before e done = e
  Chain-chain_hash before e (link {c} {cs} links rest) =
      Chain-chain_hash (c ∷ before) (links.hashed ∙ ap (λ p. sha (p ++ c)) e) rest
      ∙ ap chain_hash (rw (reverse-cons c cs) (sym (append_assoc (reverse cs) (c ∷ []) before)))

  -- Two inputs of one hash, or an input whose hash is the anchor of the chain.
  pub data Weakness : Type 0 where
    collision : (a b : Bytes) → a ≢ b → sha a ≡ sha b → Weakness
    anchored : (a : Bytes) → sha a ≡ genesis_hash → Weakness

  append_injective : (a b c d : Bytes) → length a ≡ length b → a ++ c ≡ b ++ d → (a ≡ b) × (c ≡ d)
  append_injective [] [] c d h e = (refl, e)
  append_injective (x ∷ a) (y ∷ b) c d h e =
      let tails : a ++ c ≡ b ++ d = cc in
      let (p, q) = append_injective a b c d (omega arith) tails in (cc, q)
  append_injective [] (y ∷ b) c d h e = absurd (omega arith)
  append_injective (x ∷ a) [] c d h e = absurd (omega arith)

  module _ (sized : (x : Bytes) → length (sha x) ≡ 64) where
    length-chain_hash : (cs : List Bytes) → length (chain_hash cs) ≡ 64
    length-chain_hash [] = refl
    length-chain_hash (c ∷ cs) = sized _

    same_or_weak : (cs ds : List Bytes) → chain_hash cs ≡ chain_hash ds → (cs ≡ ds) ⊎ Weakness
    same_or_weak [] [] e = inl refl
    same_or_weak [] (d ∷ ds) e = inr (anchored _ (sym e))
    same_or_weak (c ∷ cs) [] e = inr (anchored _ e)
    same_or_weak (c ∷ cs) (d ∷ ds) e =
        elim (Bool-cases (bytes_eq (chain_hash cs ++ c) (chain_hash ds ++ d))) [
          | inr differ ↦ inr (collision _ _ (λ same. cc ((bytes_eq_iff _ _).1 same)) e)
          | inl same ↦
              let (p, q) =
                append_injective (chain_hash cs) (chain_hash ds) c d
                  (length-chain_hash cs ∙ sym (length-chain_hash ds)) ((bytes_eq_iff _ _).0 same) in
              elim (same_or_weak cs ds p) [ inl r ↦ inl (ap₂ ◌∷◌ q r) | inr w ↦ inr w ]
        ]

    same_texts :
        (ls ks cs ds : List Bytes) (last : Bytes)
        → Chain 0 genesis_hash ls cs last
        → Chain 0 genesis_hash ks ds last
        → (cs ≡ ds) ⊎ Weakness
    same_texts ls ks cs ds last one two =
        let hashes : chain_hash (reverse cs) ≡ chain_hash (reverse ds) =
          ap chain_hash (sym (append-nil (reverse cs)))
          ∙ sym (Chain-chain_hash [] refl one)
          ∙ Chain-chain_hash [] refl two
          ∙ ap chain_hash (append-nil (reverse ds)) in
        elim (same_or_weak (reverse cs) (reverse ds) hashes) [
          | inl e ↦ inl (sym (reverse-reverse cs) ∙ ap reverse e ∙ reverse-reverse ds)
          | inr w ↦ inr w
        ]

  -- An accepted stream is a chain: each of its lines has four parts, which are a hash, the hash of
  -- the line before (of the first, the anchor), the line's number from 0 on, and a text; and the
  -- hash is that of the hash before with the text behind it.
  pub verify_audit-Chain :
      (input : Bytes) (err : Option Error)
      → (verify_audit sha input err).ok ≡ true
      → (cs : List Bytes) × (last : Bytes) × Chain 0 genesis_hash (split_lines input) cs last
  unfolding verify_audit Found
  verify_audit-Chain input err e = verify_lines-Chain 0 genesis_hash err (split_lines input) e

  Chain-texts :
      {n : ℕ} {prev last : Bytes} {ls cs : List Bytes}
      → Chain n prev ls cs last
      → (last ≡ last_hash prev ls) × (cs ≡ texts ls)
  unfolding last_hash texts
  Chain-texts done = (refl, refl)
  Chain-texts (link {h} {l} {c} {ls} {cs} links rest) =
      let (hash, same) = Chain-texts rest in
      let shape = links.shape in
      (hash ∙ ap (λ p. last_hash (hash_of p) ls) (sym shape), ap₂ ◌∷◌ (ap text_of (sym shape)) same)

  -- Two streams that VerifyAudit accepts, with the same hash in their last lines, hold the same texts
  -- in the same order. If they do not, two different inputs of the hash with one value can be read
  -- off them, or an input whose hash is the anchor; of the hash only its length of 64 bytes is used.
  pub same_last_hash :
      (a b : Bytes) (e f : Option Error)
      → ((x : Bytes) → length (sha x) ≡ 64)
      → (verify_audit sha a e).ok ≡ true
      → (verify_audit sha b f).ok ≡ true
      → last_hash genesis_hash (split_lines a) ≡ last_hash genesis_hash (split_lines b)
      → (texts (split_lines a) ≡ texts (split_lines b)) ⊎ Weakness
  same_last_hash a b e f sized one two same =
      let (cs, last, chain) = verify_audit-Chain a e one in
      let (ds, last', chain') = verify_audit-Chain b f two in
      let p = Chain-texts chain in
      let q = Chain-texts chain' in
      let ends : last' ≡ last = q.0 ∙ sym same ∙ sym p.0 in
      let other = subst (Chain 0 genesis_hash (split_lines b) ds) ends chain' in
      elim (same_texts sized (split_lines a) (split_lines b) cs ds last chain other) [
        | inl agree ↦ inl (sym p.1 ∙ agree ∙ q.1)
        | inr weak ↦ inr weak
      ]
