-- ===== src/Pkg/Storage/Inside.antt =====
-- internal/pkg/storage/local.go: safePath does not leave the directory of the provider.
use golang_base.Base.{
  ℕ, true, false, List, [], ◌∷◌, ◌++◌, Text, codes, ◌==◌, has_prefix, All, ◌≡◌, refl, inl, inr, ◌⊎◌,
  arith, Bool-cases,
}
use golang_base.Base.Paths.{is_abs, clean, join_path, rel_path, join_slash}
use golang_base.Base.Paths.Parts.{IsPart, clean_abs, clean_inside}
use golang_base.Base.Paths.Joined.{join_path_lem}
use golang_base.Base.Paths.Below.{rel_path_below, names_stay}
use golang_base.Domain.Errors.{message, ok, err, Result-cases}
use golang_base.Pkg.Storage.{
  Files, LocalProvider, leads_out, escapes, safe_path, absolute, new_local_provider,
}

-- An absolute path without "." or "..".
abbrev pub IsCleanRoot : Text → Type 0
IsCleanRoot root = (bs : List Text) × All IsPart bs × (root ≡ b'/' ∷ join_slash bs)

-- The path is the root, or names something below it.
abbrev pub IsUnder : Text → Text → Type 0
IsUnder root path =
    (bs : List Text) × (ps : List Text) × All IsPart bs
    × All IsPart ps
    × (root ≡ b'/' ∷ join_slash bs)
    × (path ≡ b'/' ∷ join_slash (bs ++ ps))

leads_out_split :
    (p : Text)
    → leads_out p ≡ false
    → (is_abs p ≡ false) × ((p == codes "..") ≡ false) × (has_prefix p (codes "../") ≡ false)
unfolding leads_out
leads_out_split p h = (ground arith, ground arith, ground arith)

-- The two outcomes of safePath. The second test of the source never finds anything.
abbrev pub Outcome : LocalProvider → Text → Type 0
Outcome p object_key =
    ((leads_out (clean object_key) ≡ true)
      × (safe_path p object_key ≡ err (message (codes "invalid object key: " ++ object_key))))
    ⊎ ((leads_out (clean object_key) ≡ false)
        × ((full : Text) × (safe_path p object_key ≡ ok full) × IsUnder p.base_path full))

-- The way down from the root does not lead out of it.
escapes_below :
    (bs ps : List Text)
    → All IsPart bs
    → All IsPart ps
    → escapes (rel_path (b'/' ∷ join_slash bs) (b'/' ∷ join_slash (bs ++ ps))) ≡ false
unfolding escapes leads_out is_abs has_prefix ◌==◌
escapes_below bs ps base names = elim (rel_path_below bs ps base names) [
  | inl here ↦ rw here refl
  | inr below ↦ let (a, b, c) = names_stay ps names in rw below (ground (arith, a, b, c))
]

safe_path-Outcome :
    (p : LocalProvider) (object_key : Text) → IsCleanRoot p.base_path → Outcome p object_key
unfolding safe_path
safe_path-Outcome p object_key (bs, base, root) = elim (Bool-cases (leads_out (clean object_key))) [
  | inl out ↦ inl (out, rw (out, safe_path) refl)
  | inr stays ↦
      let (a, b, c) = leads_out_split (clean object_key) stays in
      let (ps, names, e) = clean_inside object_key a b c in
      let joined : join_path p.base_path (clean object_key) ≡ b'/' ∷ join_slash (bs ++ ps) =
        rw root (rw e (join_path_lem bs ps base names)) in
      let inside : escapes (rel_path p.base_path (join_path p.base_path (clean object_key)))
          ≡ false =
        rw joined (rw root (escapes_below bs ps base names)) in
      inr (
        stays,
        (
          join_path p.base_path (clean object_key),
          rw (stays, safe_path) (rw inside refl),
          (bs, ps, base, names, root, joined),
        ),
      )
]

module _ {F : Type 0} (files : Files F) where
  joined_abs :
      (wd : Text) (c : ℕ) (cs : Text) → is_abs wd ≡ true → IsCleanRoot (join_path wd (c ∷ cs))
  unfolding join_path is_abs
  joined_abs [] c cs h = cc
  joined_abs (x ∷ wd) c cs h = clean_abs ((x ∷ wd) ++ b'/' ∷ c ∷ cs) h

  absolute-IsCleanRoot :
      (c : ℕ) (cs : Text) (f : F) (abs : Text)
      → ((wd : Text) → files.working_dir f ≡ ok wd → is_abs wd ≡ true)
      → absolute files (c ∷ cs) f ≡ ok abs
      → IsCleanRoot abs
  unfolding absolute
  absolute-IsCleanRoot c cs f abs dirs h = elim (Bool-cases (is_abs (c ∷ cs))) [
    | inl rooted ↦
        let same : clean (c ∷ cs) ≡ abs = ground arith in rw (← same) (clean_abs (c ∷ cs) rooted)
    | inr relative ↦ elim (Result-cases (files.working_dir f)) [
      | inr (e, failed) ↦ absurd (ground arith)
      | inl (wd, found) ↦
          let same : join_path wd (c ∷ cs) ≡ abs = ground arith in
          rw (← same) (joined_abs wd c cs (dirs wd found))
    ]
  ]

  -- The directory of a provider that was made.
  made_from :
      (path public_url : Text) (f : F) (p : LocalProvider)
      → (new_local_provider files path public_url f).0 ≡ ok p
      → (c : ℕ) × (cs : Text) × (path ≡ c ∷ cs) × (absolute files path f ≡ ok p.base_path)
  unfolding new_local_provider
  made_from [] public_url f p h = cc
  made_from (c ∷ cs) public_url f p h = elim (Result-cases (absolute files (c ∷ cs) f)) [
    | inr (e, failed) ↦ absurd (ground arith)
    | inl (abs, found) ↦ elim (Result-cases (files.mkdir_all abs f).0) [
      | inr (e, failed) ↦ absurd (ground arith)
      | inl (u, done) ↦ (c, cs, refl, ground arith)
    ]
  ]

  -- If the working directory is an absolute path: for every object key a local provider that was
  -- made refuses it, if its clean form is absolute or leads up, and else takes it to a path
  -- that is the provider's directory or names something below it, by elements that are neither
  -- empty nor "." nor "..".
  pub safe_path-IsUnder :
      (path public_url object_key : Text) (f : F) (p : LocalProvider)
      → ((wd : Text) → files.working_dir f ≡ ok wd → is_abs wd ≡ true)
      → (new_local_provider files path public_url f).0 ≡ ok p
      → Outcome p object_key
  safe_path-IsUnder path public_url object_key f p dirs made =
      let (c, cs, e, found) = made_from path public_url f p made in
      safe_path-Outcome p object_key (absolute-IsCleanRoot c cs f p.base_path dirs (rw e at found))
