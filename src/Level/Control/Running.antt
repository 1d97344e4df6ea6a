-- ===== src/Level/Control/Running.antt =====
-- The goroutines of config_reload.go and signal.go beside requests and the program itself, all of
-- which change one LevelVar: what a goroutine does in one round of its loop is one step.
pub mod Sources
use logger.Base.{
  ℕ, suc, ◌+◌, ◌≡◌, Bool, true, false, not, Option, none, some, List, [], ◌∷◌, ◌++◌, Bytes,
  if◌then◌else◌, ℤ, eq_ℤ,
}
use logger.Level.{Level, LevelVar, level_of, set_level}
use logger.Level.Control.{Request, serve_http, Tick, missing, present, tick, apply_once, zero_time}

-- A loop over a channel for one signal: whether a signal waits in the channel, whether the signal is
-- sent there, whether the channel `done` is closed, and whether the goroutine runs. The numbers of
-- signals that have arrived and of those that were handled are kept besides.
pub record Loop : Type 0 where
  pub pending : Bool
  pub notified : Bool
  pub done : Bool
  pub running : Bool
  pub arrived : ℕ
  pub handled : ℕ

abbrev pub new_loop : Loop
new_loop = record {
  pending = false;
  notified = true;
  done = false;
  running = true;
  arrived = 0;
  handled = 0;
}

-- The function that `OnSIGHUP` and `CycleLevelOnSignal` return.
abbrev pub stop_loop : Loop → Loop
stop_loop l = record l { notified = false; done = true }

-- What can happen to such a loop, with whether a signal is handled: a signal that finds the channel
-- full is dropped, and of a signal that waits and a closed channel the goroutine may take either.
pub data Move (l : Loop) : Bool → Loop → Type 0 where
  arrives : l.notified ≡ true → Move l false (record l { pending = true; arrived = l.arrived + 1 })
  handles :
      l.running ≡ true
      → l.pending ≡ true
      → Move l true (record l { pending = false; handled = suc l.handled })
  stops : l.done ≡ false → Move l false (stop_loop l)
  quits : l.running ≡ true → l.done ≡ true → Move l false (record l { running = false })

-- The watcher: its file's time, the callback if there is one, the channel `stop`, the goroutine, and
-- the texts that callbacks were given.
pub record Watcher : Type 0 where
  pub last_mod : ℤ
  pub on_reload : Bool
  pub stopped : Bool
  pub running : Bool
  pub reloads : List Bytes

-- `given` are the levels that the program has given to the LevelVar itself, the newest first.
pub record System : Type 0 where
  pub lv : LevelVar
  pub given : List Level
  pub watcher : Watcher
  pub cycling : Loop
  pub on : Bool
  pub hangups : Loop

-- What the callback is given by a tick: the text of a file that is new and could be read.
abbrev given : Bool → Option Bytes → List Bytes
given false text = []
given true none = []
given true (some text) = text ∷ []

unfoldable pub reloaded : Watcher → Tick → List Bytes
reloaded w missing = []
reloaded w (present m text) = if eq_ℤ m w.last_mod then [] else given w.on_reload text

unfoldable pub ticked : System → Tick → System
unfolding tick reloaded
ticked s x =
    let after = tick (record { last_mod = s.watcher.last_mod; lv = s.lv }) x in
    record s {
      lv = after.lv;
      watcher = record (s.watcher) {
        last_mod = after.last_mod;
        reloads = s.watcher.reloads ++ reloaded s.watcher x;
      };
    }

-- A round of the goroutine of `CycleLevelOnSignal`.
unfoldable pub cycled : Level → Level → System → Bool → Loop → System
cycled normal verbose s false l = record s { cycling = l }
cycled normal verbose s true l = record s {
  lv = set_level s.lv (if s.on then normal else verbose);
  on = not s.on;
  cycling = l;
}

-- `WatchConfigFile`, `CycleLevelOnSignal` and `OnSIGHUP`, with what the first finds at once.
unfoldable pub started : LevelVar → Tick → System
unfolding apply_once
started lv first = record {
  lv = (apply_once (record { last_mod = zero_time; lv = lv }) first).lv;
  given = level_of lv ∷ [];
  watcher = record {
    last_mod = zero_time;
    on_reload = false;
    stopped = false;
    running = true;
    reloads = [];
  };
  cycling = new_loop;
  on = false;
  hangups = new_loop;
}

-- `OnReload`
abbrev pub with_callback : System → System
with_callback s = record s { watcher = record (s.watcher) { on_reload = true } }

-- `Stop`, any number of times.
abbrev pub stop_watcher : System → System
stop_watcher s = record s { watcher = record (s.watcher) { stopped = true } }

module _ (normal verbose : Level) where
  pub data Step (s : System) : System → Type 0 where
    requests : (r : Request) → Step s (record s { lv = (serve_http s.lv r).1 })
    sets : (l : Level) → Step s (record s { lv = set_level s.lv l; given = l ∷ s.given })
    ticks : (x : Tick) → s.watcher.running ≡ true → Step s (ticked s x)
    registers : Step s (with_callback s)
    stops_watching : Step s (stop_watcher s)
    quits_watching :
        s.watcher.running ≡ true
        → s.watcher.stopped ≡ true
        → Step s (record s { watcher = record (s.watcher) { running = false } })
    cycles :
        {taken : Bool} {l : Loop}
        → Move s.cycling taken l
        → Step s (cycled normal verbose s taken l)
    hangs_up :
        {taken : Bool} {l : Loop} → Move s.hangups taken l → Step s (record s { hangups = l })

  pub data Reach (s : System) : System → Type 0 where
    here : Reach s s
    next : {t u : System} → Reach s t → Step t u → Reach s u
