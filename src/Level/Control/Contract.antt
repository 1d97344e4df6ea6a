-- ===== src/Level/Control/Contract.antt =====
-- What a request, a configuration file and a signal can do to the level.
use logger.Base.{
  ℕ, zero, suc, ◌%◌, ◌≡◌, refl, ◌⊎◌, inl, inr, Bool, true, false, not, Option, none, some, Bytes,
  bytes, bytes_eq, if◌then◌else◌, ◌||◌, ◌==◌, pos, ◌≤ℤ◌, arith,
}
use logger.Level.{Level, LevelVar, level_of, set_level, parse_level}
use logger.Level.Names.{parse_level_bounds}
use logger.Level.Control.{
  Request, Response, level_text, http_error, asked_level, put_level, serve_http, apply, apply_level,
  cycle,
}

abbrev pub Severity : Level → Type 0
Severity l = (pos 1 ≤ℤ l) × (l ≤ℤ pos 24)

abbrev pub is_get : Request → Bool
is_get r = bytes_eq r.method (bytes "GET")

abbrev pub is_set : Request → Bool
is_set r = bytes_eq r.method (bytes "PUT") || bytes_eq r.method (bytes "POST")

-- What the handler can answer.
abbrev pub Answered : LevelVar → Request → Response × LevelVar → Type 0
Answered lv r (resp, lv') =
    ((resp.code ≡ 200) × (is_get r ≡ true) × (lv' ≡ lv))
    ⊎ ((l : Level) × (resp.code ≡ 200)
        × (is_set r ≡ true)
        × (parse_level (asked_level r) ≡ some l)
        × Severity l
        × (lv' ≡ set_level lv l))
    ⊎ ((resp.code ≡ 400) × (is_set r ≡ true) × (parse_level (asked_level r) ≡ none) × (lv' ≡ lv))
    ⊎ ((resp.code ≡ 405) × (is_get r ≡ false) × (is_set r ≡ false) × (lv' ≡ lv))

put_level-Answered :
    (lv : LevelVar) (r : Request) (o : Option Level)
    → is_set r ≡ true
    → parse_level (asked_level r) ≡ o
    → Answered lv r (put_level lv (asked_level r) o)
unfolding put_level
put_level-Answered lv r none s e = inr (inr (inl (refl, s, e, refl)))
put_level-Answered lv r (some l) s e =
    inr (inl (l, refl, s, e, parse_level_bounds (asked_level r) l e, refl))

-- Every request is answered in one of four ways: a GET with 200, and the level is as before; a PUT
-- or a POST with 200 where the text asked for is read as a level, which is from 1 to 24 and is set,
-- and with 400 where it is not; and any other method with 405. With 400 and 405 the level is as
-- before.
pub serve_http-Answered : (lv : LevelVar) (r : Request) → Answered lv r (serve_http lv r)
unfolding serve_http
serve_http-Answered lv r = by_method (is_get r) refl
  where
    get : Response
    get = record {
      code = 200;
      content_type = some (bytes "application/json");
      text = level_text (level_of lv);
    }

    put : Response × LevelVar
    put = put_level lv (asked_level r) (parse_level (asked_level r))

    other : Response × LevelVar
    other = (http_error (bytes "method not allowed") 405, lv)

    by_set : (b : Bool) → is_get r ≡ false → is_set r ≡ b → Answered lv r (if b then put else other)
    by_set true g e = put_level-Answered lv r (parse_level (asked_level r)) e refl
    by_set false g e = inr (inr (inr (refl, g, e, refl)))

    by_method :
        (b : Bool)
        → is_get r ≡ b
        → Answered lv r (if b then (get, lv) else (if is_set r then put else other))
    by_method true e = inl (refl, e, refl)
    by_method false e = by_set (is_set r) e refl

apply-Severity :
    (lv : LevelVar) (text : Option Bytes)
    → (apply lv text ≡ lv) ⊎ Severity (level_of (apply lv text))
unfolding apply level_of set_level
apply-Severity lv none = inl refl
apply-Severity lv (some s) = by_level (parse_level s) refl
  where
    by_level :
        (o : Option Level)
        → parse_level s ≡ o
        → (apply_level lv o ≡ lv) ⊎ Severity (level_of (apply_level lv o))
    by_level none e = inl refl
    by_level (some l) e = inr (parse_level_bounds s l e)

cycle_turns :
    (normal verbose : Level) (n : ℕ) (on : Bool) (lv : LevelVar)
    → level_of (cycle normal verbose (suc n) (on, lv)).1 ≡ (
        if (n % 2 == 0) then (if on then normal else verbose) else (if on then verbose else normal))
unfolding cycle level_of set_level
cycle_turns normal verbose zero on lv = refl
cycle_turns normal verbose (suc n) on lv =
    let later =
      cycle_turns normal verbose n (not on) (set_level lv (if on then normal else verbose)) in
    ground (arith, later)
