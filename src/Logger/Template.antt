-- ===== src/Logger/Template.antt =====
-- template.go: messages with named holes.
pub mod RoundTrip
use logger.Base.{
  ℕ, zero, suc, ◌+◌, ◌-◌, Bool, true, false, ◌&&◌, Option, none, some, List, [], ◌∷◌, ◌++◌, Bytes,
  bytes, if◌then◌else◌, ◌==◌, take,
}
use logger.Level.{Level}
use logger.Field.{Field, AnyVal, string_field, any_field}
use logger.Record.{Context, background}
use logger.Logger.{Runtime, Logger, State, enabled, log}

-- `strings.IndexByte`
unfoldable pub index_byte : Bytes → ℕ → Option ℕ
index_byte [] c = none
index_byte (x ∷ xs) c = elim (index_byte xs c) [
  | some i ↦ if x == c then some 0 else some (i + 1)
  | none ↦ if x == c then some 0 else none
]

-- What the loop does at a byte: write a byte, and pass over some more; write all that is left and
-- stop; or fill a hole, and pass over the bytes up to its end.
pub data Action : Type 0 where
  write : ℕ → ℕ → Action
  stop : Action
  fill : Bytes → ℕ → Action

abbrev pub next_is : ℕ → Bytes → Bool
next_is c [] = false
next_is c (d ∷ ds) = d == c

abbrev pub hole : Bytes → Option ℕ → Action
hole cs none = stop
hole cs (some end) = fill (take (end - 1) cs) end

unfoldable pub action : ℕ → Bytes → Action
unfolding index_byte
action c cs =
    if c == b'{'
    then if next_is b'{' cs then write b'{' 1 else hole cs (index_byte (c ∷ cs) b'}')
    else if c == b'}' && next_is b'}' cs
    then write b'}' 1
    else write c 0

-- The argument of the next hole, nil if there is none left.
abbrev pub first_arg : List AnyVal → AnyVal
first_arg [] = AnyVal.nil
first_arg (v ∷ vs) = v

abbrev pub other_args : List AnyVal → List AnyVal
other_args [] = []
other_args (v ∷ vs) = vs

-- `sprint` is fmt.Sprint. The loop of `parseTemplate`, with so many bytes to pass over: what it has
-- written and the fields so far.
module _ (sprint : AnyVal → Bytes) where
  unfoldable pub template_loop : Bytes → ℕ → List AnyVal → Bytes → List Field → Bytes × List Field
  unfolding action
  template_loop [] k args sb fields = (sb, fields)
  template_loop (c ∷ cs) (suc k) args sb fields = template_loop cs k args sb fields
  template_loop (c ∷ cs) zero args sb fields = elim (action c cs) [
    | write b k ↦ template_loop cs k args (sb ++ (b ∷ [])) fields
    | stop ↦ (sb ++ (c ∷ cs), fields)
    | fill name k ↦
        template_loop cs k (other_args args) (sb ++ sprint (first_arg args))
          (fields ++ (any_field name (first_arg args) ∷ []))
  ]

  unfoldable pub parse_template : Bytes → List AnyVal → Bytes × List Field
  unfolding template_loop
  parse_template tmpl args =
      let (msg, fields) = template_loop tmpl 0 args [] [] in
      (msg, fields ++ (string_field (bytes "msg_template") tmpl ∷ []))

  unfoldable pub logt :
      {W : Type 0}
      → Runtime W
      → Logger W
      → Option Context
      → Level
      → Bytes
      → List AnyVal
      → State W
      → State W
  unfolding parse_template
  logt rt l ctx level tmpl args st =
      let (msg, fields) = parse_template tmpl args in
      if enabled l level st.world then log rt l ctx level msg fields st else st
