-- ===== src/Sink/FingersCrossed/Trail.antt =====
-- What reaches the inner sink: nothing until a record at the activation level, then the last
-- records held back and that record, then every record.
use logger.Base.{ℕ, ◌-◌, ◌≡◌, refl, ◌⊎◌, true, false, some, List, [], ◌∷◌, length, drop, ◌<ℤ◌, pos}
use logger.Record.{Record, clone}
use logger.Sink.FingersCrossed.{FcBuffer, FingersCrossed, activation_level, emit_in}
use logger.Sink.FingersCrossed.Buffer.{Slot, IsValid, contents, push_bounded}

-- The last `n` items of a list.
abbrev pub last : {A : Type 0} → ℕ → List A → List A
last n xs = drop (length xs - n) xs

-- The records of a trail, as the buffer keeps them.
abbrev pub held : List Record → List Slot
held [] = []
held (r ∷ rs) = some (clone r) ∷ held rs

abbrev pushes : ℕ → List Slot → List Slot → List Slot
pushes cap q [] = q
pushes cap q (x ∷ xs) = pushes cap (push_bounded cap q x) xs

module _ {W : Type 0} (f : FingersCrossed W) where
  -- A record that is below the activation level and does not pass through.
  abbrev pub IsHeld : Record → Type 0
  IsHeld r =
      (r.level <ℤ activation_level f.activation)
      × ((f.pass_through ≡ pos 0) ⊎ (r.level <ℤ f.pass_through))

  abbrev pub AllHeld : List Record → Type 0
  AllHeld [] = Unit {0}
  AllHeld (r ∷ rs) = IsHeld r × AllHeld rs

  -- The buffer and the inner sink's world after the emissions of some records.
  pub emit_all : FcBuffer → List Record → W → FcBuffer × W
  emit_all b [] w = (b, w)
  emit_all b (r ∷ rs) w = let (e, b', w') = emit_in f b r w in emit_all b' rs w'

  -- The buffer holds what a bounded queue does, and nothing has reached the inner sink.
  record Holding (b : FcBuffer) (w : W) (q : List Slot) (out : FcBuffer × W) : Type 0 where
    valid : IsValid out.0
    closed : out.0.activated ≡ false
    same_cap : out.0.cap ≡ b.cap
    queue : contents out.0 ≡ q
    quiet : out.1 ≡ w

  -- Once a buffer is open, every record goes to the inner sink at once, whatever its level.
  pub emit_in_open :
      (b : FcBuffer) (r : Record) (w : W)
      → b.activated ≡ true
      → let (e, b', w') = emit_in f b r w in ((e, w') ≡ f.inner.emit r w) × (b' ≡ b)
  unfolding emit_in
  emit_in_open b r w c = rw c (refl, refl)
