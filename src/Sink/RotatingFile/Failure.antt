-- ===== src/Sink/RotatingFile/Failure.antt =====
-- A rotation whose rename fails leaves the file closed, and it stays so.
use logger.Base.{
  ℕ, ◌≡◌, refl, sym, subst, ap, true, ◌&&◌, Option, none, some, List, [], ◌∷◌, ◌++◌, Bytes, bytes,
  length, Bool-cases, inl, inr, pos, ltb_ℤ, add_i64,
}
use logger.Sink.{Error}
use logger.Sink.RotatingFile.{
  Fs, RotatingFile, max_size, renamed, closed, rotate_locked, write_now, write_after, write,
  Written,
}

-- What a closed handle does, as package os documents it: its methods return an error, write nothing
-- and leave it closed, and a rename of a file does not open it.
pub record ClosedLaws {H W : Type 0} (fs : Fs H W) (Closed : H → W → Type 0) : Type 0 where
  pub closes : (h : H) (w : W) → (fs.close h w).0 ≡ none → Closed h (fs.close h w).1
  pub renames : (h : H) (from to : Bytes) (w : W) → Closed h w → Closed h (fs.rename from to w).1
  pub writes :
      (h : H) (p : Bytes) (w : W) → Closed h w → (e : Error) × (fs.write h p w ≡ ((0, some e), w))
  pub closes_again : (h : H) (w : W) → Closed h w → (e : Error) × (fs.close h w ≡ (some e, w))

module _ {H W : Type 0} (fs : Fs H W) where
  -- The results of calls of `Write` in a row.
  pub run : RotatingFile H → List Bytes → W → List (ℕ × Option Error)
  run r [] w = []
  run r (p ∷ ps) w = let (out, r', w') = write fs r p w in out ∷ run r' ps w'

  abbrev pub AllFail : List (ℕ × Option Error) → Type 0
  AllFail [] = Unit {0}
  AllFail (out ∷ outs) = ((e : Error) × (out ≡ (0, some e))) × AllFail outs

  -- A call that writes nothing, returns an error and changes neither the file nor the world.
  Stuck : RotatingFile H → W → Written fs → Type 0
  Stuck r w out = (e : Error) × (out.0 ≡ (0, some e)) × (out.2 ≡ w) × (out.1.f ≡ r.f)

  closed-Stuck :
      (r : RotatingFile H) (p : Bytes) (w : W) (e : Error)
      → fs.close r.f w ≡ (some e, w)
      → Stuck r w (write_after fs p (rotate_locked fs r w))
  unfolding Stuck write_after rotate_locked closed
  closed-Stuck r p w e h = rw h (e, refl, refl, refl)

  write_now-Stuck :
      (r : RotatingFile H) (p : Bytes) (w : W) (e : Error)
      → fs.write r.f p w ≡ ((0, some e), w)
      → Stuck r w (write_now fs r p w)
  unfolding Stuck write_now
  write_now-Stuck r p w e h = rw h (e, refl, refl, refl)

  module _ (Closed : H → W → Type 0) (laws : ClosedLaws fs Closed) where
    write-Stuck :
        (r : RotatingFile H) (p : Bytes) (w : W) → Closed r.f w → Stuck r w (write fs r p w)
    unfolding write
    write-Stuck r p w c =
        let (e, on_close) = laws.closes_again r.f w c in
        let (e', on_write) = laws.writes r.f p w c in
        elim (Bool-cases (
          ltb_ℤ (max_size r.max_size_bytes) (add_i64 r.size (pos (length p)))
          && ltb_ℤ (pos 0) r.size)) [
            | inl over ↦ rw over (closed-Stuck r p w e on_close)
            | inr fits ↦ rw fits (write_now-Stuck r p w e' on_write)
          ]

    run-AllFail :
        (r : RotatingFile H) (ps : List Bytes) (w : W) → Closed r.f w → AllFail (run r ps w)
    unfolding run Stuck
    run-AllFail r [] w c = tt
    run-AllFail r (p ∷ ps) w c =
        let (e, out, same, handle) = write-Stuck r p w c in
        let still : Closed (write fs r p w).1.f (write fs r p w).2 =
          subst (λ v. Closed (write fs r p w).1.f v) (sym same)
            (subst (λ h. Closed h w) (sym handle) c) in
        ((e, out), run-AllFail (write fs r p w).1 ps (write fs r p w).2 still)

    rename_fails :
        (r : RotatingFile H) (name : Bytes) (e : Error) (o : Option Error × W)
        → o.0 ≡ some e
        → renamed fs r name o ≡ (some e, r, o.1)
    unfolding renamed
    rename_fails r name e (none, v) h = cc
    rename_fails r name e (some x, v) h = ap (λ y. (y, r, v)) h

    -- The name that a rotation after the time `w` would give the file, and what its rename does.
    abbrev pub rename_at : RotatingFile H → W → Option Error × W
    rename_at r w = fs.rename r.path (r.path ++ (bytes "." ++ fs.stamp w)) w

    rotate_stops :
        (r : RotatingFile H) (w : W) (e : Error)
        → (fs.close r.f w).0 ≡ none
        → (rename_at r (fs.close r.f w).1).0 ≡ some e
        → rotate_locked fs r w ≡ (some e, r, (rename_at r (fs.close r.f w).1).1)
    unfolding rotate_locked closed
    rotate_stops r w e c n = rw c (rename_fails r _ e (rename_at r (fs.close r.f w).1) n)

    -- When a call of `Write` has to rotate and the rename fails, that call returns the rename's error,
    -- and every later call of `Write` returns an error and writes nothing: the file has been closed and
    -- nothing but `Reopen` opens it again. Of the operating system it is used that a closed file stays
    -- closed and that writing to it or closing it again is an error.
    pub write_after_failed_rename :
        (r : RotatingFile H) (p : Bytes) (ps : List Bytes) (w : W) (e : Error)
        → (ltb_ℤ (max_size r.max_size_bytes) (add_i64 r.size (pos (length p)))
            && ltb_ℤ (pos 0) r.size)
          ≡ true
        → (fs.close r.f w).0 ≡ none
        → (rename_at r (fs.close r.f w).1).0 ≡ some e
        → ((write fs r p w).0 ≡ (0, some e))
          × AllFail (run (write fs r p w).1 ps (write fs r p w).2)
    unfolding write write_after
    write_after_failed_rename r p ps w e over c n =
        let shut : Closed r.f (rename_at r (fs.close r.f w).1).1 =
          laws.renames r.f r.path _ _ (laws.closes r.f w c) in
        rw (over, rotate_stops r w e c n)
          (refl, run-AllFail r ps (rename_at r (fs.close r.f w).1).1 shut)
