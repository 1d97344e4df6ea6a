-- ===== src/Logger/Span/Paths.antt =====
-- span.go: the paths of spans that are started one after another.
use logger.Base.{
  ℕ, suc, ◌+◌, ◌^◌, ◌<◌, ◌≡◌, refl, sym, subst, ap, ◌∙◌, ◌≢◌, Bool, true, false, Bool-cases, inl,
  inr, Option, none, some, List, [], ◌∷◌, ◌++◌, Bytes, bytes, if◌then◌else◌, ◌==◌, arith, pos,
  add_i64, add_i64_pos, decimal, read_decimal, read_decimal-decimal,
}
use logger.Field.{Time, Field}
use logger.Record.{Context}
use logger.Sink.HttpBatch.Bodies.Lines.{loop_of-digits_onto, digits_onto-decimal}
use logger.Logger.Span.{itoa, SpanState, Spans, Span, put, under, span_of, start_span}

-- A call of `StartSpan`.
pub record Start : Type 0 where
  pub id : Bytes
  pub now : Time
  pub ctx : Option Context
  pub name : Bytes
  pub fields : List Field

abbrev pub started : Start → Spans → Context × Span × Spans
started s h = start_span s.id s.now s.ctx s.name s.fields h

pub all_started : List Start → Spans → Spans
all_started [] h = h
all_started (s ∷ ss) h = all_started ss (started s h).2

unfoldable pub is_under : ℕ → Option ℕ → Bool
is_under a none = false
is_under a (some b) = a == b

-- How many of the calls start a child of the span at the address `a`.
unfoldable pub count_under : ℕ → List Start → ℕ
count_under a [] = 0
count_under a (s ∷ ss) =
    let rest = count_under a ss in if is_under a (span_of s.ctx) then suc rest else rest

-- The span at `a` exists, has the path `p` and counts `k` children.
record HasChildren (h : Spans) (a : ℕ) (p : Bytes) (k : ℕ) : Type 0 where
  allocated : a < h.next
  same_path : (h.cell a).path ≡ p
  counted : (h.cell a).children ≡ pos k

itoa_pos : (n : ℕ) → suc n < 2 ^ 63 → itoa (pos (suc n)) ≡ decimal (suc n)
unfolding itoa
itoa_pos n h =
    let off : (suc n == 0) ≡ false = ground arith in
    rw off (loop_of-digits_onto (suc n) h ∙ digits_onto-decimal n)

append_cancel : (p s t : Bytes) → p ++ s ≡ p ++ t → s ≡ t
append_cancel [] s t h = h
append_cancel (c ∷ p) s t h = append_cancel p s t cc

decimal-injective : (m n : ℕ) → decimal m ≡ decimal n → m ≡ n
decimal-injective m n h =
    let back : some m ≡ some n =
      sym (read_decimal-decimal m) ∙ ap read_decimal h ∙ read_decimal-decimal n in
    cc

itoa-decimal : (n : ℕ) → n + 1 < 2 ^ 63 → itoa (pos (n + 1)) ≡ decimal (n + 1)
itoa-decimal n h = subst (λ m. itoa (pos m) ≡ decimal m) (omega arith) (itoa_pos n (omega arith))

is_under_self : (a : ℕ) → is_under a (some a) ≡ true
unfolding is_under
is_under_self a = ground arith

under-HasChildren :
    (o : Option ℕ) (h : Spans) (a : ℕ) (p : Bytes) (k : ℕ)
    → k + 1 < 2 ^ 63
    → HasChildren h a p k
    → HasChildren (under o h).2 a p (if is_under a o then k + 1 else k)
unfolding under is_under
under-HasChildren none h a p k fits kept = kept
under-HasChildren (some b) h a p k fits kept = elim (Bool-cases (a == b)) [
  | inl e ↦
      let same : a ≡ b = ground arith in
      let path : (h.cell b).path ≡ p = ap (λ i. (h.cell i).path) (sym same) ∙ kept.same_path in
      let count : (h.cell b).children ≡ pos k =
        ap (λ i. (h.cell i).children) (sym same) ∙ kept.counted in
      let one_more : add_i64 (h.cell b).children (pos 1) ≡ pos (k + 1) =
        ap (λ z. add_i64 z (pos 1)) count ∙ add_i64_pos k 1 fits in
      rw e (record { allocated = kept.allocated; same_path = rw e path; counted = rw e one_more })
  | inr e ↦ rw e (record {
    allocated = kept.allocated;
    same_path = rw e kept.same_path;
    counted = rw e kept.counted;
  })
]

-- A new address is not one in use.
put-HasChildren :
    (h : Spans) (st : SpanState) (a : ℕ) (p : Bytes) (k : ℕ)
    → HasChildren h a p k
    → HasChildren (record (put h h.next st) { next = h.next + 1 }) a p k
put-HasChildren h st a p k kept =
    let old : a < h.next = kept.allocated in
    let off : (a == h.next) ≡ false = ground arith in
    record {
      allocated = omega (arith, old);
      same_path = rw off kept.same_path;
      counted = rw off kept.counted;
    }

-- Any call keeps what is known of the span at `a`, and counts a child that it starts there.
started-HasChildren :
    (s : Start) (h : Spans) (a : ℕ) (p : Bytes) (k : ℕ)
    → k + 1 < 2 ^ 63
    → HasChildren h a p k
    → HasChildren (started s h).2 a p (if is_under a (span_of s.ctx) then k + 1 else k)
unfolding start_span
started-HasChildren s h a p k fits kept =
    put-HasChildren _ _ a p _ (under-HasChildren (span_of s.ctx) h a p k fits kept)

all_started-HasChildren :
    (ss : List Start) (h : Spans) (a : ℕ) (p : Bytes) (k : ℕ)
    → k + count_under a ss + 1 < 2 ^ 63
    → HasChildren h a p k
    → HasChildren (all_started ss h) a p (k + count_under a ss)
unfolding all_started count_under
all_started-HasChildren [] h a p k fits kept = subst (HasChildren h a p) (omega arith) kept
all_started-HasChildren (s ∷ ss) h a p k fits kept =
    let k' = if is_under a (span_of s.ctx) then k + 1 else k in
    let shorter : k' + count_under a ss + 1 < 2 ^ 63 = ground arith in
    let first : k + 1 < 2 ^ 63 = ground arith in
    subst (HasChildren (all_started ss (started s h).2) a p) (ground arith) (
      all_started-HasChildren ss (started s h).2 a p k' shorter
        (started-HasChildren s h a p k first kept))

started_path :
    (s : Start) (h : Spans) (a : ℕ) (p : Bytes) (k : ℕ)
    → span_of s.ctx ≡ some a
    → k + 1 < 2 ^ 63
    → HasChildren h a p k
    → (started s h).1.path ≡ p ++ (bytes "." ++ decimal (k + 1))
unfolding start_span under
started_path s h a p k at fits kept =
    let n : add_i64 (h.cell a).children (pos 1) ≡ pos (k + 1) =
      ap (λ z. add_i64 z (pos 1)) kept.counted ∙ add_i64_pos k 1 fits in
    simp (at, n, kept.same_path, itoa-decimal k fits)

-- Two children of the span at `a`, which has started `c` children so far, whatever other spans are
-- started between them and wherever, as long as the counter fits an int: the first has the parent's
-- path and the number c + 1 behind a dot, the second the parent's path and a number that is greater
-- by one and by the children started between; so their paths differ.
pub sibling_paths_differ :
    (h : Spans) (a c : ℕ) (s t : Start) (mid : List Start)
    → a < h.next
    → (h.cell a).children ≡ pos c
    → span_of s.ctx ≡ some a
    → span_of t.ctx ≡ some a
    → (c + 1) + count_under a mid + 1 < 2 ^ 63
    → let p = (h.cell a).path in
      let n = (c + 1) + count_under a mid in
      let fst = started s h in
      let snd = started t (all_started mid fst.2) in
      (fst.1.path ≡ p ++ (bytes "." ++ decimal (c + 1)))
      × (snd.1.path ≡ p ++ (bytes "." ++ decimal (n + 1)))
      × (fst.1.path ≢ snd.1.path)
sibling_paths_differ h a c s t mid old kids under_s under_t fits =
    let p = (h.cell a).path in
    let n = (c + 1) + count_under a mid in
    let now : HasChildren h a p c = record { allocated = old; same_path = refl; counted = kids } in
    let small : c + 1 < 2 ^ 63 = omega arith in
    let counted : (if is_under a (span_of s.ctx) then c + 1 else c) ≡ c + 1 =
      ap (λ o. if is_under a o then c + 1 else c) under_s ∙ (rw (is_under_self a) refl) in
    let after_s : HasChildren (started s h).2 a p (c + 1) =
      subst (HasChildren (started s h).2 a p) counted (started-HasChildren s h a p c small now) in
    let last = all_started-HasChildren mid (started s h).2 a p (c + 1) fits after_s in
    let one = started_path s h a p c under_s small now in
    let two = started_path t (all_started mid (started s h).2) a p n under_t fits last in
    (
      one,
      two,
      λ same.
          let digits = append_cancel (bytes ".") _ _ (append_cancel p _ _ (sym one ∙ same ∙ two)) in
          let equal : c + 1 ≡ n + 1 = decimal-injective _ _ digits in omega arith,
    )
