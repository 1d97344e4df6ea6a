-- ===== src/Logger/Template/RoundTrip.antt =====
-- A template against the parts that it is written from.
use logger.Base.{
  ℕ, suc, ◌+◌, ◌-◌, ◌≡◌, ◌≢◌, refl, sym, ap, ap₂, ◌∙◌, false, Option, none, some, List, [], ◌∷◌,
  ◌++◌, append_assoc, append-nil, Bytes, bytes, if◌then◌else◌, ◌==◌, ==_iff, Bool-cases, inl, inr,
  take, length, All, arith,
}
use logger.Field.{Field, AnyVal, string_field, any_field}
use logger.Logger.Template.{
  index_byte, write, fill, next_is, action, first_arg, other_args, template_loop, parse_template,
}

-- A part of a template: a text, or a hole by its name.
pub data Part : Type 0 where
  text : Bytes → Part
  named : Bytes → Part

-- Braces of a text are doubled.
abbrev pub doubled : Bytes → Bytes
doubled [] = []
doubled (c ∷ cs) =
    if c == b'{'
    then b'{' ∷ b'{' ∷ doubled cs
    else if c == b'}'
    then b'}' ∷ b'}' ∷ doubled cs
    else c ∷ doubled cs

abbrev pub print : List Part → Bytes
print [] = []
print (text t ∷ ps) = doubled t ++ print ps
print (named n ∷ ps) = b'{' ∷ (n ++ (b'}' ∷ print ps))

abbrev pub NotOpen : Bytes → Type 0
NotOpen [] = Unit {0}
NotOpen (c ∷ cs) = c ≢ b'{'

-- The name of a hole has no closing brace, and no opening one at its start.
abbrev pub IsName : Bytes → Type 0
IsName n = NotOpen n × All (λ c. c ≢ b'}') n

abbrev pub AllNames : List Part → Type 0
AllNames [] = Unit {0}
AllNames (text t ∷ ps) = AllNames ps
AllNames (named n ∷ ps) = IsName n × AllNames ps

-- The message: each hole with its argument's text.
pub render : (AnyVal → Bytes) → List Part → List AnyVal → Bytes
render sprint [] args = []
render sprint (text t ∷ ps) args = t ++ render sprint ps args
render sprint (named n ∷ ps) args = sprint (first_arg args) ++ render sprint ps (other_args args)

-- A field for each hole.
pub hole_fields : List Part → List AnyVal → List Field
hole_fields [] args = []
hole_fields (text t ∷ ps) args = hole_fields ps args
hole_fields (named n ∷ ps) args = any_field n (first_arg args) ∷ hole_fields ps (other_args args)

index_byte-name :
    (n rest : Bytes)
    → All (λ c. c ≢ b'}') n
    → index_byte (n ++ (b'}' ∷ rest)) b'}' ≡ some (length n)
unfolding index_byte
index_byte-name [] rest h = elim_rest (index_byte rest b'}')
  where
    elim_rest :
        (o : Option ℕ)
        → elim o as (λ x. Option ℕ) [
          | some i ↦ if b'}' == b'}' then some 0 else some (i + 1)
          | none ↦ if b'}' == b'}' then some 0 else none
        ]
          ≡ some 0
    elim_rest none = refl
    elim_rest (some i) = refl
index_byte-name (c ∷ n) rest h =
    let other : (c == b'}') ≡ false = ground (arith, h.0) in
    rw (index_byte-name n rest h.1, other) (ap some (omega arith))

take-length-append : (n rest : Bytes) → take (length n) (n ++ rest) ≡ n
take-length-append [] rest = refl
take-length-append (c ∷ n) rest = ap (λ t. c ∷ t) (take-length-append n rest)

next_is-name : (n rest : Bytes) → NotOpen n → next_is b'{' (n ++ (b'}' ∷ rest)) ≡ false
next_is-name [] rest h = refl
next_is-name (c ∷ n) rest h = ground (arith, h)

action-open :
    (n rest : Bytes) → IsName n → action b'{' (n ++ (b'}' ∷ rest)) ≡ fill n (suc (length n))
unfolding action
action-open n rest h =
    let all = n ++ (b'}' ∷ rest) in
    let found = index_byte-name (b'{' ∷ n) rest (omega arith, h.1) in
    let name : take (suc (length n) - 1) all ≡ n =
      ap (λ k. take k all) (omega arith) ∙ take-length-append n (b'}' ∷ rest) in
    rw (next_is-name n rest h.0, found) (ap (λ t. fill t (suc (length n))) name)

action-plain :
    (c : ℕ) (rest : Bytes) → (c == b'{') ≡ false → (c == b'}') ≡ false → action c rest ≡ write c 0
unfolding action
action-plain c rest e f = rw (e, f) refl

module _ (sprint : AnyVal → Bytes) where
  loop_skip :
      (n rest : Bytes) (args : List AnyVal) (sb : Bytes) (fs : List Field)
      → template_loop sprint (n ++ (b'}' ∷ rest)) (suc (length n)) args sb fs
        ≡ template_loop sprint rest 0 args sb fs
  unfolding template_loop
  loop_skip [] rest args sb fs = refl
  loop_skip (c ∷ n) rest args sb fs = loop_skip n rest args sb fs

  loop_text :
      (t rest : Bytes) (args : List AnyVal) (sb : Bytes) (fs : List Field)
      → template_loop sprint (doubled t ++ rest) 0 args sb fs
        ≡ template_loop sprint rest 0 args (sb ++ t) fs
  unfolding template_loop
  loop_text [] rest args sb fs =
      ap (λ s. template_loop sprint rest 0 args s fs) (sym (append-nil sb))
  loop_text (c ∷ t) rest args sb fs = elim (Bool-cases (c == b'{')) [
    | inl e ↦ rw ((==_iff c b'{').0 e) (
        loop_text t rest args (sb ++ (b'{' ∷ [])) fs
        ∙ ap (λ s. template_loop sprint rest 0 args s fs) (append_assoc sb (b'{' ∷ []) t))
    | inr e ↦ elim (Bool-cases (c == b'}')) [
      | inl f ↦ rw ((==_iff c b'}').0 f) (
          loop_text t rest args (sb ++ (b'}' ∷ [])) fs
          ∙ ap (λ s. template_loop sprint rest 0 args s fs) (append_assoc sb (b'}' ∷ []) t))
      | inr f ↦
          rw (e, f, template_loop, action-plain c (doubled t ++ rest) e f)
            (loop_text t rest args (sb ++ (c ∷ [])) fs
              ∙ ap (λ s. template_loop sprint rest 0 args s fs) (append_assoc sb (c ∷ []) t))
    ]
  ]

  loop_fill :
      (c : ℕ) (cs : Bytes) (args : List AnyVal) (sb : Bytes) (fs : List Field) (name : Bytes)
      (k : ℕ)
      → action c cs ≡ fill name k
      → template_loop sprint (c ∷ cs) 0 args sb fs
        ≡ template_loop sprint cs k
            (other_args args)
            (sb ++ sprint (first_arg args))
            (fs ++ (any_field name (first_arg args) ∷ []))
  unfolding template_loop
  loop_fill c cs args sb fs name k e = rw (e, template_loop) refl

  loop_hole :
      (n rest : Bytes) (args : List AnyVal) (sb : Bytes) (fs : List Field)
      → IsName n
      → template_loop sprint (b'{' ∷ (n ++ (b'}' ∷ rest))) 0 args sb fs
        ≡ template_loop sprint rest 0
            (other_args args)
            (sb ++ sprint (first_arg args))
            (fs ++ (any_field n (first_arg args) ∷ []))
  loop_hole n rest args sb fs h =
      loop_fill b'{' (n ++ (b'}' ∷ rest)) args sb fs n (suc (length n)) (action-open n rest h)
      ∙ loop_skip n rest (other_args args) _ _

  loop_print :
      (ps : List Part) (args : List AnyVal) (sb : Bytes) (fs : List Field)
      → AllNames ps
      → template_loop sprint (print ps) 0 args sb fs
        ≡ (sb ++ render sprint ps args, fs ++ hole_fields ps args)
  loop_print [] args sb fs h =
      unfold template_loop render hole_fields in
      ap₂ (λ s f. (s, f)) (sym (append-nil sb)) (sym (append-nil fs))
  loop_print (text t ∷ ps) args sb fs h =
      loop_text t (print ps) args sb fs
      ∙ loop_print ps args (sb ++ t) fs h
      ∙ unfold render hole_fields in ap (λ s. (s, fs ++ hole_fields ps args)) (append_assoc sb t _)
  loop_print (named n ∷ ps) args sb fs h =
      loop_hole n (print ps) args sb fs h.0
      ∙ loop_print ps (other_args args) _ _ h.1
      ∙ unfold render hole_fields in ap₂ (λ s f. (s, f)) (append_assoc sb _ _) (append_assoc fs _ _)

  -- A template that is written from texts, with their braces doubled, and holes, whose names hold no
  -- closing brace and start with no opening one, is parsed into these parts: the message is the texts
  -- with the argument of each hole in its place, and the fields are one for each hole, by its name,
  -- and the template itself. A hole with no argument left stands for nil, and what arguments are left
  -- over is not used.
  pub parse_template-print :
      (ps : List Part) (args : List AnyVal)
      → AllNames ps
      → parse_template sprint (print ps) args ≡ (
        render sprint ps args,
        hole_fields ps args ++ (string_field (bytes "msg_template") (print ps) ∷ []),
      )
  unfolding parse_template
  parse_template-print ps args h =
      ap (λ o. (o.0, o.1 ++ (string_field (bytes "msg_template") (print ps) ∷ [])))
        (loop_print ps args [] [] h)
