-- ===== src/Pkg/Storage.antt =====
-- internal/pkg/storage: the interface of a storage backend (provider.go), the backend on the local
-- file system (local.go), the disabled one (disabled.go) and the choice of one (factory.go).
pub mod Inside
pub mod Cloud
pub mod Kept
pub mod Made
use golang_base.Base.{
  ℕ, Bool, true, false, not, ◌||◌, Option, none, some, List, [], ◌∷◌, ◌++◌, Text, codes, ◌==◌,
  has_prefix, ℤ, if◌then◌else◌,
}
use golang_base.Base.Paths.{is_abs, clean, join_path, rel_path, dir}
use golang_base.Domain.Errors.{Error, message, Result, ok, err}
use golang_base.Infra.{Write}
use golang_base.Infra.Monad.{Act, ◌>>=◌, ◌>>◌, give, read}

pub record UploadResult : Type 0 where
  pub object_key : Text
  pub url : Option Text
  pub size : ℕ

-- The interface Provider over a state. A file is its content, and an expiry a time.Duration.
pub record Provider (F : Type 0) : Type 0 where
  pub upload : Text → Text → Text → Act F UploadResult
  pub download : Text → Act F Text
  pub delete : Text → Write F
  pub presigned_url : Text → ℤ → Act F Text
  pub ping : Write F

-- Package os: `copy` is io.Copy into the created file, `describe` the text of an error.
pub record Files (F : Type 0) : Type 0 where
  pub working_dir : F → Result Text
  pub mkdir_all : Text → Write F
  pub create : Text → Write F
  pub copy : Text → Text → Act F ℕ
  pub open_file : Text → Act F Text
  pub remove : Text → Write F
  pub stat : Text → Write F
  pub is_not_exist : Error → Bool
  pub describe : Error → Text

pub record LocalProvider : Type 0 where
  pub base_path : Text
  pub public_url : Text

-- `fmt.Errorf(text + ": %w", err)`
abbrev pub wrap : {F A : Type 0} → Files F → Text → Act F A → Act F A
wrap files text m f =
    let (r, f') = m f in
    (elim r [ ok a ↦ ok a | err e ↦ err (message (text ++ (codes ": " ++ files.describe e))) ], f')

-- The first test of safePath, and in the second the test of Rel's result: a path that leads up.
unfoldable pub leads_out : Text → Bool
leads_out p = is_abs p || (p == codes ".." || has_prefix p (codes "../"))

unfoldable pub escapes : Option Text → Bool
escapes none = true
escapes (some rel) = leads_out rel

unfoldable pub safe_path : LocalProvider → Text → Result Text
safe_path p object_key =
    let cleaned = clean object_key in
    let full_path = join_path p.base_path cleaned in
    if leads_out cleaned
    then err (message (codes "invalid object key: " ++ object_key))
    else if escapes (rel_path p.base_path full_path)
    then err (message (codes "object key escapes storage root: " ++ object_key))
    else ok full_path

module _ {F : Type 0} (files : Files F) where
  -- `filepath.Abs`
  unfoldable pub absolute : Text → F → Result Text
  absolute path f =
      if is_abs path
      then ok (clean path)
      else elim (files.working_dir f) [ err e ↦ err e | ok wd ↦ ok (join_path wd path) ]

  unfoldable pub new_local_provider : Text → Text → Act F LocalProvider
  new_local_provider [] public_url =
      give (err (message (codes "local storage provider is not configured")))
  new_local_provider (c ∷ cs) public_url = do
    abs ← wrap files (codes "invalid local storage path") (read (absolute (c ∷ cs)))
    wrap files (codes "cannot create local storage directory") (files.mkdir_all abs)
    give (ok (record { base_path = abs; public_url = public_url }))

  module _ (p : LocalProvider) where
    unfoldable pub local_upload : Text → Text → Text → Act F UploadResult
    local_upload object_key file content_type = do
      full_path ← give (safe_path p object_key)
      wrap files (codes "cannot create directory") (files.mkdir_all (dir full_path))
      wrap files (codes "cannot create file") (files.create full_path)
      size ← wrap files (codes "cannot write file") (files.copy full_path file)
      give (
          ok (record {
            object_key = object_key;
            url = some (p.public_url ++ b'/' ∷ object_key);
            size = size;
          }))

    unfoldable pub local_download : Text → Act F Text
    local_download object_key f = elim (safe_path p object_key) [
      | err e ↦ (err e, f)
      | ok full_path ↦
          let (r, f') = files.open_file full_path f in
          (
            elim r [
              | ok content ↦ ok content
              | err e ↦ err (
                  message (
                    if files.is_not_exist e
                    then codes "file not found: " ++ object_key
                    else codes "cannot open file: " ++ files.describe e))
            ],
            f',
          )
    ]

    unfoldable pub local_delete : Text → Write F
    local_delete object_key f = elim (safe_path p object_key) [
      | err e ↦ (err e, f)
      | ok full_path ↦
          let (r, f') = files.remove full_path f in
          (
            elim r [
              | ok u ↦ ok u
              | err e ↦
                  if files.is_not_exist e
                  then ok tt
                  else err (message (codes "cannot delete file: " ++ files.describe e))
            ],
            f',
          )
    ]

    unfoldable pub local_presigned_url : Text → ℤ → Act F Text
    local_presigned_url object_key expiry f = elim (safe_path p object_key) [
      | err e ↦ (err e, f)
      | ok full_path ↦ (ok (p.public_url ++ b'/' ∷ object_key), f)
    ]

    unfoldable pub local_ping : Write F
    local_ping = wrap files (codes "local storage path error") (files.stat p.base_path)

    unfoldable pub local_provider : Provider F
    local_provider = record {
      upload = local_upload;
      download = local_download;
      delete = local_delete;
      presigned_url = local_presigned_url;
      ping = local_ping;
    }

abbrev pub storage_disabled : Error
storage_disabled = message (codes "storage is disabled")

unfoldable pub disabled_provider : {F : Type 0} → Provider F
disabled_provider = record {
  upload = λ key file content_type. give (err storage_disabled);
  download = λ key. give (err storage_disabled);
  delete = λ key. give (err storage_disabled);
  presigned_url = λ key expiry. give (err storage_disabled);
  ping = give (err storage_disabled);
}

pub record S3Config : Type 0 where
  pub bucket : Text
  pub region : Text
  pub endpoint : Text
  pub access_key_id : Text
  pub secret_access_key : Text
  pub force_path_style : Bool

pub record GcsConfig : Type 0 where
  pub bucket : Text
  pub credentials_json : Text

pub record StorageConfig : Type 0 where
  pub provider : Text
  pub local_base_path : Text
  pub public_base_url : Text
  pub s3 : S3Config
  pub gcs : GcsConfig

-- NewProvider; the constructors of the two cloud backends are arguments.
unfoldable pub new_provider :
    {F : Type 0}
    → Files F
    → (S3Config → Act F (Provider F))
    → (GcsConfig → Act F (Provider F))
    → StorageConfig
    → Act F (Provider F)
new_provider files new_s3 new_gcs cfg =
    if cfg.provider == codes "local"
    then (new_local_provider files cfg.local_base_path cfg.public_base_url >>= λ p.
        give (ok (local_provider files p)))
    else if cfg.provider == codes "s3"
    then new_s3 cfg.s3
    else if cfg.provider == codes "gcs"
    then new_gcs cfg.gcs
    else if cfg.provider == []
    then (new_local_provider files (codes "./storage/app/public") (codes "/storage") >>= λ p.
        give (ok (local_provider files p)))
    else give (err (message (codes "unsupported storage provider")))
