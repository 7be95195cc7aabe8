-- ===== src/Pkg/Logger/Setup.antt =====
-- internal/pkg/logger/logger.go: what Setup leaves behind.
use golang_base.Base.{
  Bool, true, false, List, Text, eq_refl, ℤ, pos, negsuc, ◌≡◌, refl, arith, inl, inr, Bool-cases,
}
use golang_base.Domain.Errors.{Result, ok, err}
use golang_base.Pkg.Logger.{
  Level, Handle, System, Logger, eq_int, eq_bool, parse_level, resolve_dir, build_handler, install,
  level_or_default, is_current, setup,
}
use golang_base.Pkg.Logger.Opened.{
  listed, SystemLaws, close_all_lem, Outcome, build_handler-Outcome,
}

module _ {W H : Type 0} (sys : System W H) (laws : SystemLaws sys) where
  open laws use {is_open, default_lem}

  -- The files that are open are those that the logger remembers.
  abbrev pub Tracks : Logger × W → Type 0
  Tracks (l, w) = (j : Handle) → is_open w j ≡ listed j l.open_files

  install-Tracks :
      (lvl : Level) (pretty : Bool) (d : Text) (built : Result (List Handle)) (l : Logger)
      (w w' : W)
      → Tracks (l, w)
      → Outcome sys laws w (built, w')
      → Tracks (install sys lvl pretty d built l w')
  unfolding install
  install-Tracks lvl pretty d (ok files) l w w' t o j =
      let w2 = sys.set_default (sys.fanout_handler pretty lvl files) w' in
      ground (
        arith,
        close_all_lem sys laws l.open_files w2 j,
        default_lem (sys.fanout_handler pretty lvl files) w' j,
        o.opened j,
        o.new j,
        t j,
      )
  install-Tracks lvl pretty d (err e) l w w' t o j =
      let w2 = sys.set_default (sys.stdout_handler lvl) w' in
      ground (
        arith,
        close_all_lem sys laws l.open_files w2 j,
        default_lem (sys.stdout_handler lvl) w' j,
        o j,
        t j,
      )

  -- Under the laws of the operating system: if the files that are open are those that the logger
  -- remembers, so they are after Setup, whatever level and form it is called with, also when the
  -- directory could not be made or a file not be opened. No file is left open and forgotten, and
  -- none that is remembered is closed.
  pub setup-Tracks :
      (lower : Text → Text) (level : Text) (pretty : Bool) (l : Logger) (w : W)
      → Tracks (l, w)
      → Tracks (setup sys lower level pretty l w)
  unfolding setup
  setup-Tracks lower level pretty l w t =
      let lvl = level_or_default (parse_level lower level) in
      let d = resolve_dir l in
      elim (Bool-cases (is_current lvl pretty d l)) [
        | inl same ↦ rw (same, setup) t
        | inr changed ↦
            rw (changed, setup)
              (install-Tracks lvl pretty d (build_handler sys d w).0 l w (build_handler sys d w).1 t
                (build_handler-Outcome sys laws d w))
      ]

eq_int_refl : (i : ℤ) → eq_int i i ≡ true
eq_int_refl (pos n) = ground arith
eq_int_refl (negsuc n) = ground arith

eq_bool_refl : (b : Bool) → eq_bool b b ≡ true
eq_bool_refl true = refl
eq_bool_refl false = refl

module _ {W H : Type 0} (sys : System W H) (lvl : Level) (pretty : Bool) (l : Logger) where
  -- The new variables are those of the call that set them.
  install-is_current :
      (built : Result (List Handle)) (w : W)
      → is_current lvl pretty
          (resolve_dir (install sys lvl pretty (resolve_dir l) built l w).0)
          (install sys lvl pretty (resolve_dir l) built l w).0
        ≡ true
  unfolding install is_current resolve_dir
  install-is_current (ok files) w =
      ground (arith, eq_int_refl lvl, eq_bool_refl pretty, eq_refl (resolve_dir l))
  install-is_current (err e) w =
      ground (arith, eq_int_refl lvl, eq_bool_refl pretty, eq_refl (resolve_dir l))

module _ {W H : Type 0} (sys : System W H) where
  -- A second call of Setup with the same level and form does nothing, whatever the first one
  -- achieved.
  pub setup-setup :
      (lower : Text → Text) (level : Text) (pretty : Bool) (l : Logger) (w : W)
      → setup sys lower level pretty
          (setup sys lower level pretty l w).0
          (setup sys lower level pretty l w).1
        ≡ setup sys lower level pretty l w
  unfolding setup
  setup-setup lower level pretty l w =
      let lvl = level_or_default (parse_level lower level) in
      let d = resolve_dir l in
      elim (Bool-cases (is_current lvl pretty d l)) [
        | inl same ↦ rw (same, setup) (rw (same, setup) refl)
        | inr changed ↦
            rw (changed, setup)
              (rw
                (
                  install-is_current sys lvl pretty l (build_handler sys d w).0
                      (build_handler sys d w).1,
                  setup,
                )
                refl)
      ]
