-- ===== src/Sink/RotatingFile/Bounds.antt =====
-- How long the active file gets.
use logger.Base.{◌≢◌, ℕ, ◌+◌, ◌≤◌, ◌≡◌, ◌⊎◌, Option, none, some, Bytes, length, pos, ◌≤ℤ◌}
use logger.Sink.{Error}
use logger.Sink.RotatingFile.{ok, Fs, RotatingFile, max_size, write, Written}

-- What the operating system does to the length of the file that is open under a handle, with no
-- other program at these files: a write takes no more than it is given and appends what it takes, a
-- file that has been renamed away is not there any more, and one that was not there is empty when it
-- is opened. `Absent` says that there is no file of this name.
pub record SizeLaws {H W : Type 0} (fs : Fs H W) (length_of : H → W → ℕ)
    (Absent : Bytes → W → Type 0) : Type 0 where
  pub takes : (h : H) (p : Bytes) (w : W) → (fs.write h p w).0.0 ≤ length p
  pub appends :
      (h : H) (p : Bytes) (w : W)
      → length_of h (fs.write h p w).1 ≡ length_of h w + (fs.write h p w).0.0
  pub renames :
      (from to : Bytes) (w : W)
      → from ≢ to
      → (fs.rename from to w).0 ≡ none
      → Absent from (fs.rename from to w).1
  pub makes_dirs : (path dir : Bytes) (w : W) → Absent path w → Absent path (fs.mkdir_all dir w).1
  pub opens :
      (path : Bytes) (w : W) (h : H)
      → Absent path w
      → (fs.open_append path w).0 ≡ ok h
      → length_of h (fs.open_append path w).1 ≡ 0
  pub measures : (h : H) (w : W) → length_of h (fs.size_of h w).1 ≡ length_of h w
  pub lists : (h : H) (dir : Bytes) (w : W) → length_of h (fs.read_dir dir w).1 ≡ length_of h w
  pub removes : (h : H) (path : Bytes) (w : W) → length_of h (fs.remove path w) ≡ length_of h w

module _ {H W : Type 0} (fs : Fs H W) (length_of : H → W → ℕ) (Absent : Bytes → W → Type 0)
    (laws : SizeLaws fs length_of Absent) where
  -- A rotation either fails and leaves the file's fields as they were, or leaves an empty file.
  abbrev Rotated : RotatingFile H → Option Error × RotatingFile H × W → Type 0
  Rotated r (some e, r', w) = r' ≡ r
  Rotated r (none, r', w) =
      (r'.size ≡ pos 0) × (r'.max_size_bytes ≡ r.max_size_bytes) × (length_of r'.f w ≡ 0)

  -- The counter is the length of the file.
  abbrev pub IsTracked : RotatingFile H → W → Type 0
  IsTracked r w = r.size ≡ pos (length_of r.f w)

  -- What a call of `Write` left behind: nothing written and nothing changed but an error returned,
  -- or a file within its bound, or with no more in it than these bytes.
  abbrev pub Bounded : RotatingFile H → Bytes → Written fs → Type 0
  Bounded r p out =
      ((e : Error) × (out.0 ≡ (0, some e)) × (out.1 ≡ r))
      ⊎ ((out.1.size ≡ pos (length_of out.1.f out.2))
          × ((pos (length_of out.1.f out.2) ≤ℤ max_size r.max_size_bytes)
              ⊎ (length_of out.1.f out.2 ≤ length p)))
