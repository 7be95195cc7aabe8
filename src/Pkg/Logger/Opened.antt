-- ===== src/Pkg/Logger/Opened.antt =====
-- internal/pkg/logger/logger.go: which files are open.
use mathlib.Core.Path.{subst, sym}
use golang_base.Base.{
  Bool, true, false, ◌||◌, List, [], ◌∷◌, ◌++◌, Text, codes, eqb, ◌≡◌, refl, ◌∙◌, arith, inl, inr,
  Bool-cases, if◌then◌else◌,
}
use golang_base.Base.Paths.{join_path}
use golang_base.Domain.Errors.{Error, Result, ok, err, Result-cases}
use golang_base.Pkg.Logger.{Handle, System, close_all, open_levels, build_handler, level_files}

abbrev pub listed : Handle → List Handle → Bool
listed j [] = false
listed j (f ∷ files) = eqb f j || listed j files

-- What the operating system documents, with a test of whether a file is open: a file that is
-- opened is another than those that are open, and what fails opens nothing.
pub record SystemLaws {W H : Type 0} (sys : System W H) : Type 0 where
  pub is_open : W → Handle → Bool
  pub mkdir_lem : (d : Text) (w : W) (j : Handle) → is_open (sys.mkdir_all d w).1 j ≡ is_open w j
  pub open_lem :
      (path : Text) (w : W) (f j : Handle)
      → (sys.open_append path w).0 ≡ ok f
      → is_open (sys.open_append path w).1 j ≡ (eqb f j || is_open w j)
  pub open_new :
      (path : Text) (w : W) (f : Handle) → (sys.open_append path w).0 ≡ ok f → is_open w f ≡ false
  pub open_failed :
      (path : Text) (w : W) (e : Error) (j : Handle)
      → (sys.open_append path w).0 ≡ err e
      → is_open (sys.open_append path w).1 j ≡ is_open w j
  pub close_lem :
      (f : Handle) (w : W) (j : Handle)
      → is_open (sys.close f w) j ≡ (if eqb f j then false else is_open w j)
  pub default_lem : (h : H) (w : W) (j : Handle) → is_open (sys.set_default h w) j ≡ is_open w j

module _ {W H : Type 0} (sys : System W H) (laws : SystemLaws sys) where
  open laws use {is_open, mkdir_lem, open_lem, open_new, open_failed, close_lem, default_lem}

  pub close_all_lem :
      (files : List Handle) (w : W) (j : Handle)
      → is_open (close_all sys files w) j ≡ (if listed j files then false else is_open w j)
  unfolding close_all
  close_all_lem [] w j = refl
  close_all_lem (f ∷ files) w j =
      ground (arith, close_all_lem files (sys.close f w) j, close_lem f w j)

  listed-append :
      (j f : Handle) (files : List Handle)
      → listed j (files ++ f ∷ []) ≡ (listed j files || eqb f j)
  listed-append j f [] = ground arith
  listed-append j f (g ∷ files) = ground (arith, listed-append j f files)

  -- Besides what was open in `w`, these files are open in `w'`, and none of them was.
  pub record Adds (w : W) (files : List Handle) (w' : W) : Type 0 where
    pub opened : (j : Handle) → is_open w' j ≡ (listed j files || is_open w j)
    pub new : (j : Handle) → listed j files ≡ true → is_open w j ≡ false

  -- What was open is open, and nothing else.
  abbrev pub Same : W → W → Type 0
  Same w w' = (j : Handle) → is_open w' j ≡ is_open w j

  abbrev pub Outcome : W → Result (List Handle) × W → Type 0
  Outcome w (ok files, w') = Adds w files w'
  Outcome w (err e, w') = Same w w'

  Adds-close : (w w' : W) (files : List Handle) → Adds w files w' → Same w (close_all sys files w')
  Adds-close w w' files a j = ground (arith, close_all_lem files w' j, a.opened j, a.new j)

  Adds-open :
      (w w1 : W) (files : List Handle) (path : Text) (f : Handle)
      → Adds w files w1
      → (sys.open_append path w1).0 ≡ ok f
      → Adds w (files ++ f ∷ []) (sys.open_append path w1).1
  Adds-open w w1 files path f a h = record {
    opened = λ j. ground (arith, listed-append j f files, open_lem path w1 f j h, a.opened j);
    new = λ j e. elim (Bool-cases (listed j files)) [
      | inl before ↦ a.new j before
      | inr now ↦ ground (arith, listed-append j f files, open_new path w1 f h, a.opened j, e, now)
    ];
  }

  module _ (d : Text) (files : List Handle) (name : Text) (names : List Text) (w : W) where
    open_levels-next :
        (f : Handle)
        → (sys.open_append (join_path d name) w).0 ≡ ok f
        → open_levels sys d files (name ∷ names) w
          ≡ open_levels sys d (files ++ f ∷ []) names (sys.open_append (join_path d name) w).1
    unfolding open_levels
    open_levels-next f h = rw (h, open_levels)

    open_levels-stop :
        (e : Error)
        → (sys.open_append (join_path d name) w).0 ≡ err e
        → open_levels sys d files (name ∷ names) w
          ≡ (err e, close_all sys files (sys.open_append (join_path d name) w).1)
    unfolding open_levels
    open_levels-stop e h = rw (h, open_levels)

  open_levels-Outcome :
      (d : Text) (names : List Text) (files : List Handle) (w w1 : W)
      → Adds w files w1
      → Outcome w (open_levels sys d files names w1)
  unfolding open_levels
  open_levels-Outcome d [] files w w1 a = a
  open_levels-Outcome d (name ∷ names) files w w1 a =
      let path = join_path d name in
      elim (Result-cases (sys.open_append path w1).0) [
        | inl (f, done) ↦ subst (Outcome w) (sym (open_levels-next d files name names w1 f done)) (
            open_levels-Outcome d names (files ++ f ∷ []) w (sys.open_append path w1).1
              (Adds-open w w1 files path f a done))
        | inr (e, failed) ↦
            subst (Outcome w) (sym (open_levels-stop d files name names w1 e failed)) (
              Adds-close w (sys.open_append path w1).1 files
                (record { opened = λ j. open_failed path w1 e j failed ∙ a.opened j; new = a.new }))
      ]

  module _ (d : Text) (w : W) where
    abbrev with_dir : W
    with_dir = (sys.mkdir_all d w).1

    abbrev app_path : Text
    app_path = join_path d (codes "app.log")

    build_handler-no_dir :
        (e : Error) → (sys.mkdir_all d w).0 ≡ err e → build_handler sys d w ≡ (err e, with_dir)
    unfolding build_handler
    build_handler-no_dir e h = rw (h, build_handler)

    build_handler-no_file :
        (u : Unit {0}) (e : Error)
        → (sys.mkdir_all d w).0 ≡ ok u
        → (sys.open_append app_path with_dir).0 ≡ err e
        → build_handler sys d w ≡ (err e, (sys.open_append app_path with_dir).1)
    unfolding build_handler
    build_handler-no_file u e h k = rw (h, k, build_handler)

    build_handler-levels :
        (u : Unit {0}) (app : Handle)
        → (sys.mkdir_all d w).0 ≡ ok u
        → (sys.open_append app_path with_dir).0 ≡ ok app
        → build_handler sys d w
          ≡ open_levels sys d (app ∷ []) level_files (sys.open_append app_path with_dir).1
    unfolding build_handler
    build_handler-levels u app h k = rw (h, k, build_handler)

    Adds-app :
        (app : Handle)
        → (sys.open_append app_path with_dir).0 ≡ ok app
        → Adds w (app ∷ []) (sys.open_append app_path with_dir).1
    Adds-app app h = record {
      opened = λ j. ground (arith, open_lem app_path with_dir app j h, mkdir_lem d w j);
      new = λ j e. ground (arith, open_new app_path with_dir app h, mkdir_lem d w app, e);
    }

    -- A handler that cannot be built leaves open what was open; one that is built opens new files.
    pub build_handler-Outcome : Outcome w (build_handler sys d w)
    build_handler-Outcome = elim (Result-cases (sys.mkdir_all d w).0) [
      | inr (e, failed) ↦
          subst (Outcome w) (sym (build_handler-no_dir e failed)) (λ j. mkdir_lem d w j)
      | inl (u, made) ↦ elim (Result-cases (sys.open_append app_path with_dir).0) [
        | inr (e, failed) ↦
            subst (Outcome w) (sym (build_handler-no_file u e made failed))
              (λ j. open_failed app_path with_dir e j failed ∙ mkdir_lem d w j)
        | inl (app, opened) ↦ subst (Outcome w) (sym (build_handler-levels u app made opened)) (
            open_levels-Outcome d level_files (app ∷ []) w (sys.open_append app_path with_dir).1
              (Adds-app app opened))
      ]
    ]
