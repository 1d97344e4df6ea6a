-- ===== src/Tests/Disk.antt =====
-- A disk with one open log file, and what the file does to it when it rotates and prunes.
use mathlib.Core.List.{Perm}
use mathlib.Core.List.Perm
use logger.Base.{
  ℕ, ◌+◌, ◌≡◌, Bool, true, false, not, ◌&&◌, ◌||◌, none, some, List, [], ◌∷◌, ◌++◌, Bytes, bytes,
  bytes_eq, if◌then◌else◌, length, pos, ltb_ℤ,
}
use logger.Sink.RotatingFile.{ok, Fs, RotatingFile, Seg, Entry, write}

-- A sort by insertion, newest first.
unfoldable insert : Seg → List Seg → List Seg
insert s [] = s ∷ []
insert s (t ∷ ts) =
    let rest = insert s ts in if ltb_ℤ s.mod_time t.mod_time then t ∷ rest else s ∷ t ∷ ts

unfoldable newest_first : List Seg → List Seg
unfolding insert
newest_first [] = []
newest_first (s ∷ ss) = insert s (newest_first ss)

-- The length of the open file, and which names there are.
record Disk : Type 0 where
  len : ℕ
  names : Bytes → Bool

abbrev segment_names : List Entry
segment_names =
    record { name = bytes "app.log"; mod_time = some (pos 9) }
    ∷ record { name = bytes "app.log.b"; mod_time = some (pos 2) }
    ∷ record { name = bytes "app.log.d"; mod_time = some (pos 4) }
    ∷ record { name = bytes "app.log.a"; mod_time = some (pos 1) }
    ∷ []

abbrev disk : Fs ℕ Disk
disk = record {
  dir = λ p. bytes "/var/log";
  base = λ p. bytes "app.log";
  join = λ d n. d ++ (bytes "/" ++ n);
  mkdir_all = λ p w. (none, w);
  open_append = λ p w. (
    ok 3,
    record { len = if w.names p then w.len else 0; names = λ q. w.names q || bytes_eq p q },
  );
  open_read = λ p w. (ok 4, w);
  create = λ p w. (ok 5, w);
  size_of = λ h w. (ok (pos w.len), w);
  write = λ h p w. ((length p, none), record w { len = w.len + length p });
  sync = λ h w. (none, w);
  close = λ h w. (none, w);
  gzip_copy = λ a b w. ((none, none), w);
  rename =
      λ a b w. (none, record w { names = λ q. not (bytes_eq q a) && (w.names q || bytes_eq b q) });
  remove = λ p w. record w { names = λ q. w.names q && not (bytes_eq p q) };
  read_dir = λ d w. (ok segment_names, w);
  stamp = λ w. bytes "20240101";
  now = λ w. pos 9;
  newest_first = newest_first;
}

abbrev log_file : RotatingFile ℕ
log_file = record {
  path = bytes "/var/log/app.log";
  max_size_bytes = pos 8;
  max_backups = pos 2;
  max_age = pos 0;
  compress = false;
  f = 3;
  size = pos 6;
  compressing = [];
}

abbrev full : Disk
full = record { len = 6; names = λ q. true }

abbrev length_on : ℕ → Disk → ℕ
length_on h w = w.len

abbrev IsAbsent : Bytes → Disk → Type 0
IsAbsent p w = w.names p ≡ false

abbrev oldest : Bytes
oldest = bytes "/var/log/app.log.a"
