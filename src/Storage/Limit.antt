-- ===== src/Storage/Limit.antt =====
-- internal/modules/storage/handler.go: which uploads reach the backend.
use golang_base.Base.{
  ℕ, ◌≤◌, Option, none, some, Text, ltb, ◌≡◌, ◌≢◌, refl, arith, inl, inr, Bool-cases, Option-cases,
}
use golang_base.Domain.Errors.{Error}
use golang_base.Pkg.Storage.{Provider}
use golang_base.Storage.{FormFile, upload_file}

module _ {F : Type 0} (provider : Provider F) (show_number : ℕ → Text)
    (describe : Error → Text) where
  -- If an upload changes the state of the backend, the form has a file that can be opened and whose
  -- size is at most the limit.
  pub upload_file-changes :
      (limit : ℕ) (uid month : Text) (form : Option FormFile) (folder : Text) (f : F)
      → (upload_file provider show_number describe limit uid month form folder f).1 ≢ f
      → (file : FormFile) × (content : Text) × (form ≡ some file)
        × (file.content ≡ some content)
        × (file.size ≤ limit)
  unfolding upload_file
  upload_file-changes limit uid month none folder f changed = absurd (changed refl)
  upload_file-changes limit uid month (some file) folder f changed =
      elim (Bool-cases (ltb limit file.size)) [
        | inl large ↦ absurd (changed (rw (large, upload_file) refl))
        | inr fits ↦ elim (Option-cases file.content) [
          | inl closed ↦ absurd (changed (rw (fits, closed, upload_file) refl))
          | inr (content, opened) ↦ (file, content, refl, opened, ground (arith, fits))
        ]
      ]
