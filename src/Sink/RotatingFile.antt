-- ===== src/Sink/RotatingFile.antt =====
-- sink_file.go: a log file that renames itself away when it has grown too long. The methods run
-- under the file's mutex, so each is one step; the goroutine that compresses a renamed file is the
-- step `compress_one`, for each path in `compressing`.
pub mod Bounds
pub mod Failure
pub mod Retention
use logger.Base.{
  ℕ, zero, suc, ◌+◌, ◌*◌, ◌%◌, ◌^◌, Bool, true, false, not, ◌&&◌, ◌||◌, Option, none, some, List,
  [], ◌∷◌, ◌++◌, Bytes, bytes, bytes_eq, if◌then◌else◌, ◌==◌, ltb, length, ℤ, pos, ltb_ℤ, leb_ℤ,
  ◌+ℤ◌, ◌-ℤ◌, add_i64,
}
use logger.Field.{Time, Duration}
use logger.Sink.{Error}

-- The result of a call, or its error.
pub data Result (A : Type 0) : Type 0 where
  err : Error → Result A
  ok : A → Result A

-- What ReadDir gives: a name, and the time of the last change unless `Info` fails.
pub record Entry : Type 0 where
  pub name : Bytes
  pub mod_time : Option Time

pub record Seg : Type 0 where
  pub path : Bytes
  pub mod_time : Time

-- What the file uses of os, path/filepath, time, sort and compress/gzip. `newest_first` is the call
-- of `sort.Slice`, which leaves the order of segments of one time open. `write` returns the number of
-- bytes written and an error; `stamp` is the current time in the layout of the renamed files, `now`
-- the current time; `gzip_copy` copies what is read from one file to another through a gzip.Writer
-- and returns the errors of `Copy` and of the writer's `Close`.
pub record Fs (H W : Type 0) : Type 0 where
  pub dir : Bytes → Bytes
  pub base : Bytes → Bytes
  pub join : Bytes → Bytes → Bytes
  pub mkdir_all : Bytes → W → Option Error × W
  pub open_append : Bytes → W → Result H × W
  pub open_read : Bytes → W → Result H × W
  pub create : Bytes → W → Result H × W
  pub size_of : H → W → Result ℤ × W
  pub write : H → Bytes → W → (ℕ × Option Error) × W
  pub sync : H → W → Option Error × W
  pub close : H → W → Option Error × W
  pub gzip_copy : H → H → W → (Option Error × Option Error) × W
  pub rename : Bytes → Bytes → W → Option Error × W
  pub remove : Bytes → W → W
  pub read_dir : Bytes → W → Result (List Entry) × W
  pub stamp : W → Bytes
  pub now : W → Time
  pub newest_first : List Seg → List Seg

-- A file comes from `NewRotatingFile`, so that `f` is never nil.
pub record RotatingFile (H : Type 0) : Type 0 where
  pub path : Bytes
  pub max_size_bytes : ℤ
  pub max_backups : ℤ
  pub max_age : Duration
  pub compress : Bool
  pub f : H
  pub size : ℤ
  pub compressing : List Bytes

abbrev pub hundred_mib : ℕ
hundred_mib = 100 * 2 ^ 20

abbrev pub max_size : ℤ → ℤ
max_size m = if leb_ℤ m (pos 0) then pos hundred_mib else m

-- `strings.HasPrefix`
unfoldable pub has_prefix : Bytes → Bytes → Bool
has_prefix s [] = true
has_prefix [] (p ∷ ps) = false
has_prefix (c ∷ cs) (p ∷ ps) = c == p && has_prefix cs ps

module _ {H : Type 0} where
  -- `over || old`, for the segment at index `i`.
  unfoldable pub is_doomed : RotatingFile H → Time → ℕ → Seg → Bool
  is_doomed r now i s =
      (ltb_ℤ (pos 0) r.max_backups && leb_ℤ r.max_backups (pos i))
      || (ltb_ℤ (pos 0) r.max_age && ltb_ℤ r.max_age (now -ℤ s.mod_time))

  -- The segments that the last loop of `prune` removes.
  unfoldable pub doomed : RotatingFile H → Time → ℕ → List Seg → List Seg
  unfolding is_doomed
  doomed r now i [] = []
  doomed r now i (s ∷ ss) =
      let rest = doomed r now (i + 1) ss in if is_doomed r now i s then s ∷ rest else rest

module _ {H W : Type 0} (fs : Fs H W) where
  -- `openExisting`: the handle and the size that it sets, or its error.
  sized : H → Result ℤ × W → Result (H × ℤ) × W
  sized h (err e, w) = (err e, (fs.close h w).1)
  sized h (ok n, w) = (ok (h, n), w)

  opened : Result H × W → Result (H × ℤ) × W
  unfolding sized
  opened (err e, w) = (err e, w)
  opened (ok h, w) = sized h (fs.size_of h w)

  made_dir : Bytes → Option Error × W → Result (H × ℤ) × W
  unfolding opened
  made_dir path (some e, w) = (err e, w)
  made_dir path (none, w) = opened (fs.open_append path w)

  unfoldable pub open_path : Bytes → W → Result (H × ℤ) × W
  unfolding made_dir
  open_path path w = made_dir path (fs.mkdir_all (fs.dir path) w)

  installed : RotatingFile H → Result (H × ℤ) × W → Option Error × RotatingFile H × W
  installed r (err e, w) = (some e, r, w)
  installed r (ok (h, n), w) = (none, record r { f = h; size = n }, w)

  unfoldable pub open_existing : RotatingFile H → W → Option Error × RotatingFile H × W
  unfolding installed open_path
  open_existing r w = installed r (open_path r.path w)

  new_from : Bytes → Result (H × ℤ) × W → Result (RotatingFile H) × W
  new_from path (err e, w) = (err e, w)
  new_from path (ok (h, n), w) = (
    ok (record {
      path = path;
      max_size_bytes = pos hundred_mib;
      max_backups = pos 7;
      max_age = pos 0;
      compress = false;
      f = h;
      size = n;
      compressing = [];
    }),
    w,
  )

  -- `NewRotatingFile`
  unfoldable pub new_rotating_file : Bytes → W → Result (RotatingFile H) × W
  unfolding new_from open_path
  new_rotating_file path w = new_from path (open_path path w)

  seg_of : Bytes → Bytes → Option Time → List Seg
  seg_of dir name none = []
  seg_of dir name (some t) = record { path = fs.join dir name; mod_time = t } ∷ []

  -- The first loop of `prune`.
  unfoldable pub segments : Bytes → Bytes → List Entry → List Seg
  unfolding seg_of has_prefix
  segments dir base [] = []
  segments dir base (e ∷ es) =
      let rest = segments dir base es in
      if bytes_eq e.name base || not (has_prefix e.name (base ++ bytes "."))
      then rest
      else seg_of dir e.name e.mod_time ++ rest

  remove_all : List Seg → W → W
  remove_all [] w = w
  remove_all (s ∷ ss) w = remove_all ss (fs.remove s.path w)

  pruned : RotatingFile H → Result (List Entry) × W → W
  unfolding remove_all
  pruned r (err e, w) = w
  pruned r (ok es, w) =
      remove_all
        (doomed r (fs.now w) 0 (fs.newest_first (segments (fs.dir r.path) (fs.base r.path) es))) w

  unfoldable pub prune : RotatingFile H → W → W
  unfolding pruned doomed segments
  prune r w = pruned r (fs.read_dir (fs.dir r.path) w)

  -- The end of `rotateLocked`, for the name that the old file has got.
  rotated : Bytes → Option Error × RotatingFile H × W → Option Error × RotatingFile H × W
  rotated name (some e, r, w) = (some e, r, w)
  rotated name (none, r, w) =
      let r' = record r {
        size = pos 0;
        compressing = if r.compress then r.compressing ++ (name ∷ []) else r.compressing;
      } in
      (none, r', prune r' w)

  renamed : RotatingFile H → Bytes → Option Error × W → Option Error × RotatingFile H × W
  unfolding rotated
  renamed r name (some e, w) = (some e, r, w)
  renamed r name (none, w) = rotated name (open_existing r w)

  closed : RotatingFile H → Option Error × W → Option Error × RotatingFile H × W
  unfolding renamed
  closed r (some e, w) = (some e, r, w)
  closed r (none, w) =
      let name = r.path ++ (bytes "." ++ fs.stamp w) in renamed r name (fs.rename r.path name w)

  unfoldable pub rotate_locked : RotatingFile H → W → Option Error × RotatingFile H × W
  unfolding closed open_existing prune
  rotate_locked r w = closed r (fs.close r.f w)

  abbrev pub Written : Type 0
  Written = (ℕ × Option Error) × RotatingFile H × W

  write_now : RotatingFile H → Bytes → W → Written
  write_now r p w =
      let (out, w') = fs.write r.f p w in (out, record r { size = add_i64 r.size (pos out.0) }, w')

  write_after : Bytes → Option Error × RotatingFile H × W → Written
  write_after p (some e, r, w) = ((0, some e), r, w)
  write_after p (none, r, w) = write_now r p w

  -- `Write`
  unfoldable pub write : RotatingFile H → Bytes → W → Written
  unfolding write_after write_now rotate_locked
  write r p w =
      if ltb_ℤ (max_size r.max_size_bytes) (add_i64 r.size (pos (length p))) && ltb_ℤ (pos 0) r.size
      then write_after p (rotate_locked r w)
      else write_now r p w

  -- `Reopen`
  unfoldable pub reopen : RotatingFile H → W → Option Error × RotatingFile H × W
  unfolding open_existing
  reopen r w = open_existing r (fs.close r.f w).1

  unfoldable pub sync : RotatingFile H → W → Option Error × W
  sync r w = fs.sync r.f w

  unfoldable pub close : RotatingFile H → W → Option Error × W
  close r w = fs.close r.f w

  -- `gzipFile`: the first error, with the files closed on every path.
  copy_error : Option Error × Option Error → Option Error
  copy_error (some e, closing) = some e
  copy_error (none, closing) = closing

  created : H → Result H × W → Option Error × W
  unfolding copy_error
  created from (err e, w) = (some e, (fs.close from w).1)
  created from (ok to, w) =
      let (errors, w') = fs.gzip_copy from to w in
      (copy_error errors, (fs.close from (fs.close to w').1).1)

  opened_read : Bytes → Result H × W → Option Error × W
  unfolding created
  opened_read path (err e, w) = (some e, w)
  opened_read path (ok from, w) = created from (fs.create (path ++ bytes ".gz") w)

  unfoldable pub gzip_file : Bytes → W → Option Error × W
  unfolding opened_read
  gzip_file path w = opened_read path (fs.open_read path w)

  compressed : Bytes → Option Error × W → W
  compressed path (none, w) = fs.remove path w
  compressed path (some e, w) = w

  -- The goroutine of `rotateLocked`, for the path that it was started for.
  unfoldable pub compress_one : RotatingFile H → Bytes → W → W
  unfolding compressed gzip_file prune
  compress_one r path w = prune r (compressed path (gzip_file path w))
