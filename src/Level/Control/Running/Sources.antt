-- ===== src/Level/Control/Running/Sources.antt =====
-- What holds of the level and of the signals at any time.
use logger.Base.{
  List, [], ◌∷◌, ◌⊎◌, ℕ, zero, suc, ◌≡◌, refl, sym, ap, ◌∙◌, inl, inr, Bool, true, false, not,
  Bool-cases, Option, none, some, Bytes, if◌then◌else◌, eq_ℤ,
}
use logger.Level.{Level, LevelVar, level_of, set_level, parse_level}
use logger.Level.Names.{parse_level_bounds}
use logger.Level.Control.{
  Request, Response, serve_http, Tick, missing, present, apply, apply_level, tick, apply_once,
}
use logger.Level.Control.Contract.{Severity, Answered, serve_http-Answered}
use logger.Level.Control.Running.{
  Loop, Move, arrives, handles, stops, quits, System, ticked, cycled, started, Step, requests, sets,
  ticks, registers, stops_watching, quits_watching, cycles, hangs_up, Reach, here, next,
}

unfoldable pub odd : ℕ → Bool
odd zero = false
odd (suc n) = not (odd n)

abbrev pub IsAmong : Level → List Level → Type 0
IsAmong l [] = ⊥
IsAmong l (x ∷ xs) = (l ≡ x) ⊎ IsAmong l xs

-- A SeverityNumber, or one of these levels.
abbrev pub IsSeverityOr : List Level → Level → Type 0
IsSeverityOr ls l = Severity l ⊎ IsAmong l ls

-- How many signals a move handles.
Move-handled :
    (l m : Loop) (taken : Bool)
    → Move l taken m
    → m.handled ≡ (if taken then suc l.handled else l.handled)
Move-handled l m taken (arrives e) = refl
Move-handled l m taken (handles e f) = refl
Move-handled l m taken (stops e) = refl
Move-handled l m taken (quits e f) = refl

module _ (ls : List Level) where
  answered-IsSeverityOr :
      (lv : LevelVar) (r : Request) (out : Response × LevelVar)
      → Answered lv r out
      → IsSeverityOr ls (level_of lv)
      → IsSeverityOr ls (level_of out.1)
  unfolding level_of set_level
  answered-IsSeverityOr lv r (resp, after) (inl (a, b, e)) h = rw e h
  answered-IsSeverityOr lv r (resp, after) (inr (inl (l, a, b, c, d, e))) h = rw e (inl d)
  answered-IsSeverityOr lv r (resp, after) (inr (inr (inl (a, b, c, e)))) h = rw e h
  answered-IsSeverityOr lv r (resp, after) (inr (inr (inr (a, b, c, e)))) h = rw e h

  apply-IsSeverityOr :
      (lv : LevelVar) (text : Option Bytes)
      → IsSeverityOr ls (level_of lv)
      → IsSeverityOr ls (level_of (apply lv text))
  unfolding apply level_of set_level apply_level
  apply-IsSeverityOr lv none h = h
  apply-IsSeverityOr lv (some text) h = by_level (parse_level text) refl
    where
      by_level :
          (o : Option Level) → parse_level text ≡ o → IsSeverityOr ls (level_of (apply_level lv o))
      by_level none e = h
      by_level (some l) e = inl (parse_level_bounds text l e)

  ticked-IsSeverityOr :
      (s : System) (x : Tick)
      → IsSeverityOr ls (level_of s.lv)
      → IsSeverityOr ls (level_of (ticked s x).lv)
  unfolding ticked tick
  ticked-IsSeverityOr s missing h = h
  ticked-IsSeverityOr s (present m text) h = elim (Bool-cases (eq_ℤ m s.watcher.last_mod)) [
    | inl e ↦ rw e h
    | inr e ↦ rw e (apply-IsSeverityOr s.lv text h)
  ]

  started-IsSeverityOr :
      (lv : LevelVar) (first : Tick)
      → IsSeverityOr ls (level_of lv)
      → IsSeverityOr ls (level_of (started lv first).lv)
  unfolding started apply_once
  started-IsSeverityOr lv missing h = h
  started-IsSeverityOr lv (present m text) h = apply-IsSeverityOr lv text h

module _ (normal verbose : Level) where
  -- The level's sources, and the toggle.
  abbrev pub Kept : System → Type 0
  Kept s =
      IsSeverityOr (normal ∷ verbose ∷ s.given) (level_of s.lv) × (s.on ≡ odd s.cycling.handled)

  cycled-Kept :
      (s : System) (taken : Bool) (l : Loop)
      → Move s.cycling taken l
      → Kept s
      → Kept (cycled normal verbose s taken l)
  unfolding cycled odd level_of set_level
  cycled-Kept s false l m (a, d) = (a, d ∙ ap odd (sym (Move-handled s.cycling l false m)))
  cycled-Kept s true l m (a, d) = (
    elim (Bool-cases s.on) [ inl e ↦ rw e (inr (inl refl)) | inr e ↦ rw e (inr (inr (inl refl))) ],
    ap not d ∙ ap odd (sym (Move-handled s.cycling l true m)),
  )

  -- One more given level.
  more :
      (x l : Level) (given : List Level)
      → IsSeverityOr (normal ∷ verbose ∷ given) l
      → IsSeverityOr (normal ∷ verbose ∷ x ∷ given) l
  more x l given (inl h) = inl h
  more x l given (inr (inl h)) = inr (inl h)
  more x l given (inr (inr (inl h))) = inr (inr (inl h))
  more x l given (inr (inr (inr h))) = inr (inr (inr (inr h)))

  Step-Kept : (s t : System) → Step normal verbose s t → Kept s → Kept t
  unfolding level_of set_level
  Step-Kept s t (requests r) (a, d) = (
    answered-IsSeverityOr (normal ∷ verbose ∷ s.given) s.lv r (serve_http s.lv r)
        (serve_http-Answered s.lv r) a,
    d,
  )
  Step-Kept s t (sets l) (a, d) = (inr (inr (inr (inl refl))), d)
  Step-Kept s t (ticks x e) (a, d) =
      let still = ticked-IsSeverityOr (normal ∷ verbose ∷ s.given) s x a in
      unfold ticked in (still, d)
  Step-Kept s t registers h = h
  Step-Kept s t stops_watching h = h
  Step-Kept s t (quits_watching e f) h = h
  Step-Kept s t (cycles m) h = cycled-Kept s _ _ m h
  Step-Kept s t (hangs_up m) h = h

  -- However requests to the level handler, ticks of the configuration watcher, signals and calls of
  -- Set interleave, and whatever texts the requests and the file have: the level is one of those that
  -- the program itself gave, at first, to Set or to the toggle, or else it is a SeverityNumber from 1
  -- to 24, so nothing from outside can set another. The toggle is on if and only if an odd number of
  -- its signals was handled.
  pub level_has_source :
      (lv : LevelVar) (first : Tick) (s : System)
      → Reach normal verbose (started lv first) s
      → Kept s
  unfolding started odd
  level_has_source lv first s here = (
    started-IsSeverityOr (normal ∷ verbose ∷ level_of lv ∷ []) lv first
        (inr (inr (inr (inl refl)))),
    refl,
  )
  level_has_source lv first s (next {t} r m) = Step-Kept t s m (level_has_source lv first t r)
