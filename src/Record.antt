-- ===== src/Record.antt =====
-- record.go, and the values of a context that the program itself puts there: the bound fields of
-- `ContextWith` (enrich.go), the buffer of `FCScope` and the state of a span, both by their
-- address. The pool of records is modelled as far as a record can see it: what it hands out is
-- reset.
use logger.Base.{ℕ, Bool, true, false, Option, none, List, [], ◌∷◌, ◌++◌, Bytes, pos, if◌then◌else◌}
use logger.Level.{Level}
use logger.Field.{Time, Field}

-- `foreign` stands for the values that other packages keep in the context.
pub record Context : Type 0 where
  pub bound : List Field
  pub scope : Option ℕ
  pub span : Option ℕ
  pub foreign : ℕ

abbrev pub background : Context
background = record { bound = []; scope = none; span = none; foreign = 0 }

-- `ContextWith`
unfoldable pub context_with : Context → List Field → Context
context_with ctx fields = record ctx { bound = ctx.bound ++ fields }

pub record Record : Type 0 where
  pub time : Time
  pub level : Level
  pub message : Bytes
  pub pc : ℕ
  pub event_name : Bytes
  pub fields : List Field
  pub ctx : Option Context
  pub pooled : Bool

unfoldable pub reset : Record → Record
reset r = record {
  time = pos 0;
  level = pos 0;
  message = [];
  pc = 0;
  event_name = [];
  fields = [];
  ctx = none;
  pooled = r.pooled;
}

-- A record as the pool makes it, or as `release` has reset it.
abbrev pub blank : Record
blank = record {
  time = pos 0;
  level = pos 0;
  message = [];
  pc = 0;
  event_name = [];
  fields = [];
  ctx = none;
  pooled = false;
}

unfoldable pub new_record : Record
new_record = record blank { pooled = true }

-- The record goes back to the pool, if it came from there.
unfoldable pub release : Record → Record
unfolding reset
release r = if r.pooled then reset r else r

-- The copy is not pooled: releasing it changes nothing.
unfoldable pub clone : Record → Record
clone r = record r { pooled = false }

unfoldable pub add_field : Record → Field → Record
add_field r f = record r { fields = r.fields ++ (f ∷ []) }
