-- ===== src/Metrics.antt =====
-- metrics.go: the logger's own counters, 64-bit words that wrap.
pub mod Account
pub mod Page
use logger.Base.{
  ℕ, zero, suc, ◌+◌, ◌%◌, ◌^◌, Bool, true, false, ◌&&◌, List, [], ◌∷◌, Bytes, bytes_eq,
  if◌then◌else◌, ltb, ltb_ℤ, leb_ℤ, pos, pos_part, length, get_or, set, replicate,
}
use logger.Level.{Level, string}

pub record Metrics : Type 0 where
  pub emitted : ℕ
  pub dropped : ℕ
  pub sink_errors : ℕ
  pub by_level : List ℕ

-- `&Metrics{}`, with its array of 25 counters.
abbrev pub zero_metrics : Metrics
zero_metrics = record { emitted = 0; dropped = 0; sink_errors = 0; by_level = replicate 25 0 }

-- `Add` on an atomic.Uint64
abbrev pub add_u64 : ℕ → ℕ → ℕ
add_u64 c n = (c + n) % 2 ^ 64

abbrev pub bump_level : List ℕ → ℕ → List ℕ
bump_level counts i = set counts i (add_u64 (get_or counts i 0) 1)

unfoldable pub inc_emitted : Metrics → Level → Metrics
inc_emitted m l =
    let m' = record m { emitted = add_u64 m.emitted 1 } in
    if leb_ℤ (pos 0) l && ltb_ℤ l (pos (length m.by_level))
    then record m' { by_level = bump_level m.by_level (pos_part l) }
    else m'

unfoldable pub inc_dropped : Metrics → Metrics
inc_dropped m = record m { dropped = add_u64 m.dropped 1 }

unfoldable pub inc_sink_error : Metrics → Metrics
inc_sink_error m = record m { sink_errors = add_u64 m.sink_errors 1 }

pub record Snapshot : Type 0 where
  pub emitted : ℕ
  pub dropped : ℕ
  pub sink_errors : ℕ
  pub by_level : List (Bytes × ℕ)

-- `s.ByLevel[name] += v`
unfoldable pub add_to : Bytes → ℕ → List (Bytes × ℕ) → List (Bytes × ℕ)
add_to name v [] = (name, v) ∷ []
add_to name v ((k, n) ∷ rest) =
    if bytes_eq k name then (k, add_u64 n v) ∷ rest else (k, n) ∷ add_to name v rest

-- The loop from level `i` on, over the counters that are left.
unfoldable pub sum_levels : ℕ → List ℕ → List (Bytes × ℕ) → List (Bytes × ℕ)
unfolding add_to
sum_levels i [] acc = acc
sum_levels i (v ∷ vs) acc =
    sum_levels (suc i) vs (if ltb 0 v then add_to (string (pos i)) v acc else acc)

abbrev pub from_one : List ℕ → List ℕ
from_one [] = []
from_one (c ∷ cs) = cs

unfoldable pub snapshot : Metrics → Snapshot
unfolding sum_levels
snapshot m = record {
  emitted = m.emitted;
  dropped = m.dropped;
  sink_errors = m.sink_errors;
  by_level = sum_levels 1 (from_one m.by_level) [];
}
