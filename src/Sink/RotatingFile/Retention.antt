-- ===== src/Sink/RotatingFile/Retention.antt =====
-- Which renamed files `prune` keeps.
use mathlib.Core.List.{Perm}
use logger.Base.{
  ℕ, ◌≡◌, Bool, false, not, ◌&&◌, ◌||◌, if◌then◌else◌, List, [], ◌∷◌, All, drop, Bytes, bytes_eq, ℤ,
  pos, pos_part, ◌-ℤ◌, ltb_ℤ, ◌≤ℤ◌,
}
use logger.Field.{Time, Duration}
use logger.Sink.RotatingFile.{Fs, RotatingFile, Seg, doomed}

-- The second segment is not newer than the first.
abbrev pub NotNewer : Seg → Seg → Type 0
NotNewer s t = t.mod_time ≤ℤ s.mod_time

abbrev pub IsSorted : List Seg → Type 0
IsSorted [] = Unit {0}
IsSorted (s ∷ ss) = All (NotNewer s) ss × IsSorted ss

-- Whether a file of this name is among the segments.
unfoldable pub has_path : Bytes → List Seg → Bool
unfolding bytes_eq
has_path p [] = false
has_path p (s ∷ ss) = let rest = has_path p ss in bytes_eq s.path p || rest

-- The segments behind the first `MaxBackups`, and those that are older than `MaxAge`, if these are
-- positive.
abbrev pub beyond : ℤ → List Seg → List Seg
beyond n ss = if ltb_ℤ (pos 0) n then drop (pos_part n) ss else []

unfoldable pub too_old : Duration → Time → List Seg → List Seg
too_old age now [] = []
too_old age now (s ∷ ss) =
    let rest = too_old age now ss in
    if ltb_ℤ (pos 0) age && ltb_ℤ age (now -ℤ s.mod_time) then s ∷ rest else rest

module _ {H : Type 0} (r : RotatingFile H) (now : Time) (p : Bytes) where
  -- Which names the loop of `prune` removes, from index `i` on.
  abbrev Removes : ℕ → List Seg → List Seg → Type 0
  Removes i ss behind =
      has_path p (doomed r now i ss) ≡ (has_path p behind || has_path p (too_old r.max_age now ss))

-- What the operating system does: reading a directory changes no file, and removing one succeeds and
-- takes away that file only; and what sort.Slice does with the comparison that `prune` gives it.
pub record DirLaws {H W : Type 0} (fs : Fs H W) (is_there : Bytes → W → Bool) : Type 0 where
  pub removes :
      (p path : Bytes) (w : W)
      → is_there p (fs.remove path w) ≡ (is_there p w && not (bytes_eq path p))
  pub sorts : (ss : List Seg) → Perm (fs.newest_first ss) ss × IsSorted (fs.newest_first ss)
