-- ===== src/Pkg/Storage/Kept.antt =====
-- internal/pkg/storage: every backend keeps what is uploaded.
use golang_base.Base.{ℕ, Text, ◌≡◌, sym, ap, ◌∙◌, arith, inl, inr}
use golang_base.Base.Paths.{dir}
use golang_base.Domain.Errors.{ok, Result-cases}
use golang_base.Pkg.Storage.{
  UploadResult, Provider, Files, LocalProvider, safe_path, local_upload, local_download,
  local_provider,
}
use golang_base.Pkg.Storage.Cloud.{
  S3Library, GcsLibrary, Bucket, s3_upload, s3_download, s3_provider, gcs_upload, gcs_download,
  gcs_provider,
}

-- What a backend promises: the key of an upload that succeeds is the key that was asked for, and
-- downloading it gives the content back.
pub record Keeps {F : Type 0} (provider : Provider F) : Type 0 where
  pub same_key :
      (key content content_type : Text) (f f' : F) (r : UploadResult)
      → provider.upload key content content_type f ≡ (ok r, f')
      → r.object_key ≡ key
  pub download-upload :
      (key content content_type : Text) (f f' : F) (r : UploadResult)
      → provider.upload key content content_type f ≡ (ok r, f')
      → (provider.download key f').0 ≡ ok content

-- io.ReadAll gives the content of the file; an object that was put is got.
pub record S3Laws {F G C : Type 0} (lib : S3Library F G C) : Type 0 where
  pub read_all_lem :
      (file content : Text) (f : F) → (lib.read_all file f).0 ≡ ok content → content ≡ file
  pub get-put :
      (client : C) (bucket key content content_type : Text) (f : F)
      → (lib.put_object client bucket key content content_type f).0 ≡ ok tt
      → (lib.get_object client bucket key
          (lib.put_object client bucket key content content_type f).1).0
        ≡ ok content

-- An object is stored when its writer was closed after the whole file was copied.
pub record GcsLaws {F C R : Type 0} (lib : GcsLibrary F C R) : Type 0 where
  pub read-close :
      (client : C) (bucket key content content_type : Text) (f : F) (n : ℕ)
      → (lib.copy
          (lib.open_writer client bucket key content_type f).0
          content
          (lib.open_writer client bucket key content_type f).1).0
        ≡ ok n
      → (lib.close
          (lib.open_writer client bucket key content_type f).0
          (lib.copy
            (lib.open_writer client bucket key content_type f).0
            content
            (lib.open_writer client bucket key content_type f).1).1).0
        ≡ ok tt
      → (lib.new_reader client bucket key
          (lib.close
            (lib.open_writer client bucket key content_type f).0
            (lib.copy
              (lib.open_writer client bucket key content_type f).0
              content
              (lib.open_writer client bucket key content_type f).1).1).1).0
        ≡ ok content

module _ {F G C : Type 0} (lib : S3Library F G C) (laws : S3Laws lib) (p : Bucket C) where
  s3_kept :
      (key content content_type : Text) (f f' : F) (r : UploadResult)
      → s3_upload lib p key content content_type f ≡ (ok r, f')
      → (r.object_key ≡ key) × ((s3_download lib p key f').0 ≡ ok content)
  unfolding s3_upload s3_download
  s3_kept key content content_type f f' r h =
      let (read, f1) = lib.read_all content f in
      elim (Result-cases read) [
        | inr (e, failed) ↦ absurd (ground (arith, failed, h))
        | inl (bytes, got) ↦
            let whole : bytes ≡ content = laws.read_all_lem content bytes f got in
            let put = lib.put_object p.client p.bucket key bytes content_type f1 in
            elim (Result-cases put.0) [
              | inr (e, failed) ↦ absurd (ground (arith, got, failed, h))
              | inl (tt, done) ↦ ground (
                arith,
                got,
                done,
                h,
                whole,
                laws.get-put p.client p.bucket key bytes content_type f1,
              )
            ]
      ]

module _ {F C R : Type 0} (lib : GcsLibrary F C R) (laws : GcsLaws lib) (p : Bucket C) where
  gcs_kept :
      (key content content_type : Text) (f f' : F) (r : UploadResult)
      → gcs_upload lib p key content content_type f ≡ (ok r, f')
      → (r.object_key ≡ key) × ((gcs_download lib p key f').0 ≡ ok content)
  unfolding gcs_upload gcs_download
  gcs_kept key content content_type f f' r h =
      let (writer, f1) = lib.open_writer p.client p.bucket key content_type f in
      let copied = lib.copy writer content f1 in
      let closed = lib.close writer copied.1 in
      elim (Result-cases copied.0) [
        | inr (e, failed) ↦ absurd (ground (arith, failed, h))
        | inl (n, all) ↦ elim (Result-cases closed.0) [
          | inr (e, failed) ↦ absurd (ground (arith, all, failed, h))
          | inl (tt, done) ↦ ground (
            arith,
            all,
            done,
            h,
            laws.read-close p.client p.bucket key content content_type f n all,
          )
        ]
      ]

-- A file that was written is read back.
pub record FilesLaws {F : Type 0} (files : Files F) : Type 0 where
  pub open_copy :
      (path content : Text) (f : F) (n : ℕ)
      → (files.copy path content f).0 ≡ ok n
      → (files.open_file path (files.copy path content f).1).0 ≡ ok content

module _ {F : Type 0} (files : Files F) (laws : FilesLaws files) (p : LocalProvider) where
  local_kept :
      (object_key content content_type : Text) (f f' : F) (r : UploadResult)
      → local_upload files p object_key content content_type f ≡ (ok r, f')
      → (r.object_key ≡ object_key) × ((local_download files p r.object_key f').0 ≡ ok content)
  unfolding local_upload local_download
  local_kept object_key content content_type f f' r h =
      elim (Result-cases (safe_path p object_key)) [
        | inr (e, failed) ↦ absurd (ground arith)
        | inl (full, safe) ↦
            let (made, f1) = files.mkdir_all (dir full) f in
            elim (Result-cases made) [
              | inr (e, failed) ↦ absurd (ground arith)
              | inl (u, done) ↦
                  let (created, f2) = files.create full f1 in
                  elim (Result-cases created) [
                    | inr (e, failed) ↦ absurd (ground arith)
                    | inl (v, opened) ↦ elim (Result-cases (files.copy full content f2).0) [
                      | inr (e, failed) ↦ absurd (ground arith)
                      | inl (n, copied) ↦ ground (arith, laws.open_copy full content f2 n copied)
                    ]
                  ]
            ]
      ]

-- The three backends keep their promise, each under the law of what it calls.
pub local_provider-Keeps :
    {F : Type 0} (files : Files F) (laws : FilesLaws files) (p : LocalProvider)
    → Keeps (local_provider files p)
unfolding local_provider
local_provider-Keeps files laws p = record {
  same_key = λ key content kind f f' r h. (local_kept files laws p key content kind f f' r h).0;
  download-upload = λ key content kind f f' r h.
      let (same, back) = local_kept files laws p key content kind f f' r h in
      ap (λ k. (local_download files p k f').0) (sym same) ∙ back;
}

pub s3_provider-Keeps :
    {F G C : Type 0} (lib : S3Library F G C) (laws : S3Laws lib) (p : Bucket C)
    → Keeps (s3_provider lib p)
unfolding s3_provider
s3_provider-Keeps lib laws p = record {
  same_key = λ key content kind f f' r h. (s3_kept lib laws p key content kind f f' r h).0;
  download-upload = λ key content kind f f' r h. (s3_kept lib laws p key content kind f f' r h).1;
}

pub gcs_provider-Keeps :
    {F C R : Type 0} (lib : GcsLibrary F C R) (laws : GcsLaws lib) (p : Bucket C)
    → Keeps (gcs_provider lib p)
unfolding gcs_provider
gcs_provider-Keeps lib laws p = record {
  same_key = λ key content kind f f' r h. (gcs_kept lib laws p key content kind f f' r h).0;
  download-upload = λ key content kind f f' r h. (gcs_kept lib laws p key content kind f f' r h).1;
}
