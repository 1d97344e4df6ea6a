-- ===== src/Level/Control.antt =====
-- The ways to change a LevelVar while the program runs: the HTTP handler of admin.go, the watcher of
-- config_reload.go and the signals of signal.go.
pub mod Contract
pub mod Running
use logger.Base.{
  ℕ, zero, suc, ◌+◌, ◌≡◌, Bool, true, false, not, Option, none, some, List, [], ◌∷◌, ◌++◌, Bytes,
  bytes, bytes_eq, if◌then◌else◌, ◌||◌, ◌-◌, ◌*◌, ◌^◌, ℤ, negsuc, eq_ℤ, append_int,
}
use logger.Level.{Level, LevelVar, level_of, set_level, marshal_text, parse_level}

-- What the handler reads of a request: its method, the query's value for `level`, and what the first
-- Read of the body puts into a buffer of 16 bytes.
pub record Request : Type 0 where
  pub method : Bytes
  pub query_level : Bytes
  pub body_read : Bytes

-- A response: its status, the Content-Type that the handler sets, and the text.
pub record Response : Type 0 where
  pub code : ℕ
  pub content_type : Option Bytes
  pub text : Bytes

abbrev quote_brace : Bytes
quote_brace = bytes "\"}\n"

-- `GET`
pub level_text : Level → Bytes
level_text cur =
    bytes "{\"level\":\""
    ++ (marshal_text cur ++ (bytes "\",\"severity_number\":" ++ (append_int cur ++ bytes "}\n")))

set_text : Level → Bytes
set_text l = bytes "{\"level\":\"" ++ (marshal_text l ++ quote_brace)

-- `http.Error`, which ends the text with a line feed and makes it plain.
abbrev pub http_error : Bytes → ℕ → Response
http_error message code = record {
  code = code;
  content_type = some (bytes "text/plain; charset=utf-8");
  text = message ++ bytes "\n";
}

abbrev asked_level : Request → Bytes
asked_level r = if bytes_eq r.query_level [] then r.body_read else r.query_level

put_level : LevelVar → Bytes → Option Level → Response × LevelVar
unfolding set_text
put_level lv val none = (http_error (bytes "bad level: " ++ val) 400, lv)
put_level lv val (some l) =
    (record { code = 200; content_type = none; text = set_text l }, set_level lv l)

-- `ServeHTTP`
unfoldable pub serve_http : LevelVar → Request → Response × LevelVar
unfolding put_level level_text
serve_http lv r =
    if bytes_eq r.method (bytes "GET")
    then (
      record {
        code = 200;
        content_type = some (bytes "application/json");
        text = level_text (level_of lv);
      },
      lv,
    )
    else if bytes_eq r.method (bytes "PUT") || bytes_eq r.method (bytes "POST")
    then put_level lv (asked_level r) (parse_level (asked_level r))
    else (http_error (bytes "method not allowed") 405, lv)

-- What the watcher of a configuration file finds at a tick: no file, or one with its time and what
-- the following read and json.Unmarshal give, the field `level` or nothing.
pub data Tick : Type 0 where
  missing : Tick
  present : ℤ → Option Bytes → Tick

apply_level : LevelVar → Option Level → LevelVar
apply_level lv none = lv
apply_level lv (some l) = set_level lv l

-- `apply`, up to the callback: a file that cannot be read or parsed changes nothing.
unfoldable pub apply : LevelVar → Option Bytes → LevelVar
unfolding apply_level
apply lv none = lv
apply lv (some text) = apply_level lv (parse_level text)

-- The zero value of a time.Time, the first instant of the year 1, in nanoseconds.
abbrev zero_time : ℤ
zero_time = negsuc (62135596800 * 10 ^ 9 - 1)

-- The time of the file that was applied last, and the level.
pub record Watch : Type 0 where
  pub last_mod : ℤ
  pub lv : LevelVar

-- A tick of `run`
unfoldable pub tick : Watch → Tick → Watch
unfolding apply
tick w missing = w
tick w (present m text) =
    if eq_ℤ m w.last_mod then w else record { last_mod = m; lv = apply w.lv text }

unfoldable pub apply_once : Watch → Tick → Watch
unfolding apply
apply_once w missing = w
apply_once w (present m text) = record w { lv = apply w.lv text }

unfoldable pub run_ticks : Watch → List Tick → Watch
unfolding tick
run_ticks w [] = w
run_ticks w (x ∷ xs) = run_ticks (tick w x) xs

-- `WatchConfigFile`: at once, and then at each tick.
unfoldable pub watch_config_file : LevelVar → Tick → List Tick → Watch
unfolding apply_once run_ticks
watch_config_file lv first ticks =
    run_ticks (apply_once (record { last_mod = zero_time; lv = lv }) first) ticks

-- The goroutine of `CycleLevelOnSignal` over so many signals: `on` and the level.
unfoldable pub cycle : Level → Level → ℕ → Bool × LevelVar → Bool × LevelVar
cycle normal verbose zero s = s
cycle normal verbose (suc n) (on, lv) =
    cycle normal verbose n (not on, set_level lv (if on then normal else verbose))

unfoldable pub cycle_level_on_signal : LevelVar → Level → Level → ℕ → LevelVar
unfolding cycle
cycle_level_on_signal lv normal verbose signals = (cycle normal verbose signals (false, lv)).1
