-- ===== src/Pkg/Logger.antt =====
-- internal/pkg/logger/logger.go: the levels, the files of the log and their set-up. What the set-up
-- reports on its own failures is left out; calls follow each other, so the lock is left out too.
-- `lower` is strings.ToLower; the message on an unknown level is without the level.
pub mod Opened
pub mod Setup
use golang_base.Base.{
  ℕ, zero, suc, Bool, true, false, ◌&&◌, ◌||◌, not, Option, none, some, List, [], ◌∷◌, ◌++◌, Text,
  codes, ◌==◌, eqb, ltb, ℤ, pos, negsuc, if◌then◌else◌,
}
use golang_base.Base.Paths.{join_path}
use golang_base.Base.Space.{trim_space}
use golang_base.Domain.Errors.{Error, message, Result, ok, err}
use golang_base.Infra.{Write}
use golang_base.Infra.Monad.{Act}

-- slog.Level: -4, 0, 4 and 8 for the four names.
abbrev pub Level : Type 0
Level = ℤ

abbrev pub level_debug : Level
level_debug = negsuc 3

abbrev pub level_info : Level
level_info = pos 0

abbrev pub level_warn : Level
level_warn = pos 4

abbrev pub level_error : Level
level_error = pos 8

abbrev pub eq_int : ℤ → ℤ → Bool
eq_int (pos m) (pos n) = eqb m n
eq_int (pos m) (negsuc n) = false
eq_int (negsuc m) (pos n) = false
eq_int (negsuc m) (negsuc n) = eqb m n

abbrev pub lt_int : ℤ → ℤ → Bool
lt_int (pos m) (pos n) = ltb m n
lt_int (pos m) (negsuc n) = false
lt_int (negsuc m) (pos n) = true
lt_int (negsuc m) (negsuc n) = ltb n m

abbrev pub eq_bool : Bool → Bool → Bool
eq_bool true b = b
eq_bool false b = not b

unfoldable pub parse_level : (Text → Text) → Text → Result Level
parse_level lower s =
    let name = lower (trim_space s) in
    if name == codes "debug"
    then ok level_debug
    else if name == codes "info"
    then ok level_info
    else if name == codes "warn" || name == codes "warning"
    then ok level_warn
    else if name == codes "error"
    then ok level_error
    else err (message (codes "unknown log level"))

unfoldable pub level_name : Level → Text
level_name l =
    if lt_int l level_info
    then codes "debug"
    else if lt_int l level_warn
    then codes "info"
    else if lt_int l level_error
    then codes "warn"
    else codes "error"

-- An open file is a number.
abbrev pub Handle : Type 0
Handle = ℕ

-- Package os, and the handlers of package slog over what they write to.
pub record System (W H : Type 0) : Type 0 where
  pub mkdir_all : Text → Write W
  pub open_append : Text → Act W Handle
  pub close : Handle → W → W
  pub set_default : H → W → W
  pub stdout_handler : Level → H
  pub fanout_handler : Bool → Level → List Handle → H

-- The package's variables; `app_output` is none for stdout alone.
pub record Logger : Type 0 where
  pub app_output : Option Handle
  pub open_files : List Handle
  pub current_level : Level
  pub initialised : Bool
  pub active_dir : Text
  pub active_pretty : Bool
  pub dir : Text

unfoldable pub resolve_dir : Logger → Text
resolve_dir l = if l.dir == [] then codes "logs" else l.dir

unfoldable pub set_dir : Text → Logger → Logger
set_dir path l = record l { dir = path }

abbrev pub level_files : List Text
level_files = codes "debug.log" ∷ codes "info.log" ∷ codes "warn.log" ∷ codes "error.log" ∷ []

unfoldable pub first_of : List Handle → Option Handle
first_of [] = none
first_of (f ∷ files) = some f

unfoldable pub level_or_default : Result Level → Level
level_or_default (ok lvl) = lvl
level_or_default (err e) = level_info

-- Whether nothing changes.
unfoldable pub is_current : Level → Bool → Text → Logger → Bool
is_current lvl pretty d l =
    l.initialised
    && (eq_int l.current_level lvl && (eq_bool l.active_pretty pretty && l.active_dir == d))

module _ {W H : Type 0} (sys : System W H) where
  unfoldable pub close_all : List Handle → W → W
  close_all [] w = w
  close_all (f ∷ files) w = close_all files (sys.close f w)

  -- The loop over the levels: if a file cannot be opened, those opened before are closed.
  unfoldable pub open_levels : Text → List Handle → List Text → Act W (List Handle)
  open_levels d files [] w = (ok files, w)
  open_levels d files (name ∷ names) w =
      let (opened, w') = sys.open_append (join_path d name) w in
      elim opened [
        | err e ↦ (err e, close_all files w')
        | ok f ↦ open_levels d (files ++ f ∷ []) names w'
      ]

  -- The files that the handler writes to, the one for every level first.
  unfoldable pub build_handler : Text → Act W (List Handle)
  build_handler d w =
      let (made, w1) = sys.mkdir_all d w in
      elim made [
        | err e ↦ (err e, w1)
        | ok u ↦
            let (opened, w2) = sys.open_append (join_path d (codes "app.log")) w1 in
            elim opened [ err e ↦ (err e, w2) | ok app ↦ open_levels d (app ∷ []) level_files w2 ]
      ]

  -- What stands after the new handler is known: the files it writes to, none if it failed.
  unfoldable pub install : Level → Bool → Text → Result (List Handle) → Logger → W → Logger × W
  unfolding first_of
  install lvl pretty d (ok files) l w = (
    record {
      app_output = first_of files;
      open_files = files;
      current_level = lvl;
      initialised = true;
      active_dir = d;
      active_pretty = pretty;
      dir = l.dir;
    },
    close_all l.open_files (sys.set_default (sys.fanout_handler pretty lvl files) w),
  )
  install lvl pretty d (err e) l w = (
    record {
      app_output = none;
      open_files = [];
      current_level = lvl;
      initialised = true;
      active_dir = d;
      active_pretty = pretty;
      dir = l.dir;
    },
    close_all l.open_files (sys.set_default (sys.stdout_handler lvl) w),
  )

  unfoldable pub setup : (Text → Text) → Text → Bool → Logger → W → Logger × W
  setup lower level pretty l w =
      let lvl = level_or_default (parse_level lower level) in
      let d = resolve_dir l in
      if is_current lvl pretty d l
      then (l, w)
      else (let (built, w') = build_handler d w in install lvl pretty d built l w')

-- The handler's Enabled.
unfoldable pub enabled : Level → Level → Bool
enabled min_level level = not (lt_int level min_level)

unfoldable pub run_handler : {W : Type 0} → Option (Write W) → Write W
run_handler none w = (ok tt, w)
run_handler (some handler) w = handler w

unfoldable pub first_error : Result (Unit {0}) → Result (Unit {0}) → Result (Unit {0})
first_error (err e) later = err e
first_error (ok u) later = later

-- The handler's Handle: the combined log, then the file of the record's level, if it has one, also
-- after an error of the first.
unfoldable pub handle_record :
    {W : Type 0} → Option (Write W) → (Level → Option (Write W)) → Level → Write W
unfolding run_handler first_error
handle_record combined per_level level w =
    let (r, w1) = run_handler combined w in
    let (r', w2) = run_handler (per_level level) w1 in (first_error r r', w2)

-- GetOutput: none is stdout.
unfoldable pub get_output : Logger → Option Handle
get_output l = l.app_output
