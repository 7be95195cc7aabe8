-- ===== src/Pkg/Storage/Made.antt =====
-- internal/pkg/storage/factory.go: every backend that the factory makes keeps what is uploaded.
use mathlib.Core.Path.{subst}
use golang_base.Base.{[], Text, codes, ◌==◌, ◌≡◌, arith, inl, inr, Bool-cases}
use golang_base.Domain.Errors.{ok, Result-cases}
use golang_base.Infra.Monad.{◌>>=◌, give}
use golang_base.Pkg.Storage.{
  S3Config, GcsConfig, UploadResult, Provider, Files, local_provider, StorageConfig, new_provider,
  new_local_provider,
}
use golang_base.Pkg.Storage.Cloud.{
  S3Library, GcsLibrary, s3_provider, new_s3_provider, gcs_provider, new_gcs_provider,
  new_cloud_provider,
}
use golang_base.Pkg.Storage.Kept.{
  Keeps, S3Laws, GcsLaws, FilesLaws, local_provider-Keeps, s3_provider-Keeps, gcs_provider-Keeps,
}

module _ {F G C C' R : Type 0} (files : Files F) (s3 : S3Library F G C) (gcs : GcsLibrary F C' R)
    (files_laws : FilesLaws files) (s3_laws : S3Laws s3) (gcs_laws : GcsLaws gcs) where
  new_local-Keeps :
      (base url : Text) (f f' : F) (provider : Provider F)
      → (new_local_provider files base url >>= λ p. give (ok (local_provider files p))) f
        ≡ (ok provider, f')
      → Keeps provider
  new_local-Keeps base url f f' provider h =
      elim (Result-cases (new_local_provider files base url f).0) [
        | inr (e, failed) ↦ absurd (ground (arith, failed, h))
        | inl (p, made) ↦
            subst Keeps (ground (arith, made, h)) (local_provider-Keeps files files_laws p)
      ]

  new_s3-Keeps :
      (cfg : S3Config) (f f' : F) (provider : Provider F)
      → (new_s3_provider s3 cfg >>= λ p. give (ok (s3_provider s3 p))) f ≡ (ok provider, f')
      → Keeps provider
  new_s3-Keeps cfg f f' provider h = elim (Result-cases (new_s3_provider s3 cfg f).0) [
    | inr (e, failed) ↦ absurd (ground (arith, failed, h))
    | inl (p, made) ↦ subst Keeps (ground (arith, made, h)) (s3_provider-Keeps s3 s3_laws p)
  ]

  new_gcs-Keeps :
      (cfg : GcsConfig) (f f' : F) (provider : Provider F)
      → (new_gcs_provider gcs cfg >>= λ p. give (ok (gcs_provider gcs p))) f ≡ (ok provider, f')
      → Keeps provider
  new_gcs-Keeps cfg f f' provider h = elim (Result-cases (new_gcs_provider gcs cfg f).0) [
    | inr (e, failed) ↦ absurd (ground (arith, failed, h))
    | inl (p, made) ↦ subst Keeps (ground (arith, made, h)) (gcs_provider-Keeps gcs gcs_laws p)
  ]

  new_cloud_provider-Keeps :
      (cfg : StorageConfig) (f f' : F) (provider : Provider F)
      → new_cloud_provider files s3 gcs cfg f ≡ (ok provider, f')
      → Keeps provider
  unfolding new_cloud_provider new_provider
  new_cloud_provider-Keeps cfg f f' provider h = elim (Bool-cases (cfg.provider == codes "local")) [
    | inl local ↦
        new_local-Keeps cfg.local_base_path cfg.public_base_url f f' provider (rw local at h)
    | inr not_local ↦ elim (Bool-cases (cfg.provider == codes "s3")) [
      | inl is_s3 ↦ new_s3-Keeps cfg.s3 f f' provider (rw (not_local, is_s3) at h)
      | inr not_s3 ↦ elim (Bool-cases (cfg.provider == codes "gcs")) [
        | inl is_gcs ↦ new_gcs-Keeps cfg.gcs f f' provider (rw (not_local, not_s3, is_gcs) at h)
        | inr not_gcs ↦ elim (Bool-cases (cfg.provider == [])) [
          | inl unset ↦
              new_local-Keeps (codes "./storage/app/public") (codes "/storage") f f' provider
                (rw (not_local, not_s3, not_gcs, unset) at h)
          | inr unknown ↦ absurd (ground (arith, not_local, not_s3, not_gcs, unknown, h))
        ]
      ]
    ]
  ]

  -- Under the laws of the file system and of the two client libraries: whatever the configuration,
  -- if NewProvider returns a backend, an upload to it that succeeds returns the key that was asked
  -- for, and downloading that key from the state after the upload gives the content back.
  pub new_cloud_provider-download :
      (cfg : StorageConfig) (f f' : F) (provider : Provider F)
      → new_cloud_provider files s3 gcs cfg f ≡ (ok provider, f')
      → (key content content_type : Text) (g g' : F) (r : UploadResult)
      → provider.upload key content content_type g ≡ (ok r, g')
      → (r.object_key ≡ key) × ((provider.download key g').0 ≡ ok content)
  new_cloud_provider-download cfg f f' provider made key content content_type g g' r stored =
      let keeps = new_cloud_provider-Keeps cfg f f' provider made in
      (
        keeps.same_key key content content_type g g' r stored,
        keeps.download-upload key content content_type g g' r stored,
      )
