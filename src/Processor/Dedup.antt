-- ===== src/Processor/Dedup.antt =====
-- dedup.go: a stage that lets one of many like records pass in a window of time.
pub mod Account
use logger.Base.{
  ℕ, ◌+◌, ◌*◌, ◌%◌, ◌^◌, Bool, not, ◌&&◌, Option, none, some, List, [], ◌∷◌, ◌++◌, Bytes, bytes,
  bytes_eq, if◌then◌else◌, ltb, ℤ, pos, ltb_ℤ, leb_ℤ, eq_ℤ, ◌-ℤ◌,
}
use logger.Level.{string}
use logger.Field.{Time, Duration, unsigned, int_field}
use logger.Record.{Record}
use logger.Processor.{ProcError, drop}

pub record DedupState : Type 0 where
  pub last : Time
  pub suppressed : ℕ

-- `seen` maps a key to its state.
pub record DedupProcessor : Type 0 where
  pub window : Duration
  pub seen : List (Bytes × DedupState)

unfoldable pub new_dedup_processor : Duration → DedupProcessor
new_dedup_processor window = record {
  window = if leb_ℤ window (pos 0) then pos (5 * 1000000000) else window;
  seen = [];
}

abbrev pub fresh : DedupState
fresh = record { last = pos 0; suppressed = 0 }

-- `d.seen[key]`, a new state if there is none, and the map with another state at the key.
unfoldable pub state_of : List (Bytes × DedupState) → Bytes → DedupState
state_of [] key = fresh
state_of ((k, st) ∷ rest) key = if bytes_eq k key then st else state_of rest key

unfoldable pub put_state :
    List (Bytes × DedupState) → Bytes → DedupState → List (Bytes × DedupState)
put_state [] key new = (key, new) ∷ []
put_state ((k, st) ∷ rest) key new =
    if bytes_eq k key then (k, new) ∷ rest else (k, st) ∷ put_state rest key new

unfoldable pub key_of : Record → Bytes
key_of r = string r.level ++ (0 ∷ r.message)

-- A record of the same key passed less than a window ago. `Sub` stops at the bounds of a Duration,
-- which no window lies beyond.
unfoldable pub is_recent : DedupProcessor → DedupState → Time → Bool
is_recent d st now = not (eq_ℤ st.last (pos 0)) && ltb_ℤ (now -ℤ st.last) d.window

-- The number of suppressed records, if there are any.
unfoldable pub annotate : Record → ℕ → Record
annotate r n =
    if ltb 0 n
    then record r {
      fields = r.fields ++ (int_field (unsigned 64) (bytes "deduped_count") (pos n) ∷ []);
    }
    else r

-- `Process`, at the time `now`.
unfoldable pub process : DedupProcessor → Record → Time → Option ProcError × Record × DedupProcessor
unfolding state_of put_state key_of is_recent annotate
process d r now =
    let st = state_of d.seen (key_of r) in
    if is_recent d st now
    then (
      some drop,
      r,
      record d {
        seen =
            put_state d.seen (key_of r) (record st { suppressed = (st.suppressed + 1) % 2 ^ 64 });
      },
    )
    else (
      none,
      annotate r st.suppressed,
      record d { seen = put_state d.seen (key_of r) (record { last = now; suppressed = 0 }) },
    )
