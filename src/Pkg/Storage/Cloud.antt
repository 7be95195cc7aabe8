-- ===== src/Pkg/Storage/Cloud.antt =====
-- internal/pkg/storage/s3.go, gcs.go and factory.go: the two cloud backends over the operations of
-- their client libraries, and the backend that the application's configuration asks for.
use golang_base.Base.{ℕ, Bool, false, Option, none, some, [], ◌∷◌, ◌++◌, Text, codes, length, ℤ}
use golang_base.Config.{Config}
use golang_base.Domain.Errors.{Error, message, ok, err}
use golang_base.Infra.{Write}
use golang_base.Infra.Monad.{Act, ◌>>=◌, ◌>>◌, give}
use golang_base.Pkg.Storage.{
  UploadResult, Provider, Files, S3Config, GcsConfig, StorageConfig, new_provider,
}

-- The AWS client library, over a client of type `C`: a region and a pair of keys for the
-- configuration, an endpoint and the style of the paths for the client. `read_all` is io.ReadAll.
pub record S3Library (F G C : Type 0) : Type 0 where
  pub load_config : Option Text → Option (Text × Text) → Act F G
  pub new_client : G → Option Text → Bool → C
  pub read_all : Text → Act F Text
  pub put_object : C → Text → Text → Text → Text → Write F
  pub get_object : C → Text → Text → Act F Text
  pub delete_object : C → Text → Text → Write F
  pub presign_get_object : C → Text → Text → ℤ → Act F Text
  pub head_bucket : C → Text → Write F
  pub describe : Error → Text

-- The Google client library; `open_writer` is NewWriter on the object of a bucket, with the type of
-- the content, and `copy` io.Copy into a writer of type `R`.
pub record GcsLibrary (F C R : Type 0) : Type 0 where
  pub new_client : Option Text → Act F C
  pub open_writer : C → Text → Text → Text → F → R × F
  pub copy : R → Text → Act F ℕ
  pub close : R → Write F
  pub new_reader : C → Text → Text → Act F Text
  pub delete : C → Text → Text → Write F
  pub attrs : C → Text → Write F
  pub describe : Error → Text

pub record Bucket (C : Type 0) : Type 0 where
  pub client : C
  pub bucket : Text

-- `fmt.Errorf(text + ": %w", err)`
abbrev pub wrap : {F A : Type 0} → (Error → Text) → Text → Act F A → Act F A
wrap describe text m f =
    let (r, f') = m f in
    (elim r [ ok a ↦ ok a | err e ↦ err (message (text ++ (codes ": " ++ describe e))) ], f')

-- A setting that is used if it is not empty.
unfoldable pub if_given : Text → Option Text
if_given [] = none
if_given (c ∷ cs) = some (c ∷ cs)

-- The pair of keys, if both are given.
unfoldable pub both_given : Text → Text → Option (Text × Text)
both_given [] secret = none
both_given (c ∷ cs) [] = none
both_given (c ∷ cs) (d ∷ ds) = some (c ∷ cs, d ∷ ds)

module _ {F G C : Type 0} (lib : S3Library F G C) where
  unfoldable pub new_s3_provider : S3Config → Act F (Bucket C)
  unfolding if_given both_given
  new_s3_provider cfg = elim cfg.bucket [
    | [] ↦ give (err (message (codes "s3: bucket is required")))
    | c ∷ cs ↦ do
      aws ← wrap lib.describe (codes "s3: load config") (
          lib.load_config (if_given cfg.region)
            (both_given cfg.access_key_id cfg.secret_access_key))
      give (
          ok (record {
            client = lib.new_client aws (if_given cfg.endpoint) cfg.force_path_style;
            bucket = c ∷ cs;
          }))
  ]

  module _ (p : Bucket C) where
    unfoldable pub s3_upload : Text → Text → Text → Act F UploadResult
    s3_upload object_key file content_type = do
      content ← wrap lib.describe (codes "s3 upload read") (lib.read_all file)
      wrap lib.describe (codes "s3 upload")
          (lib.put_object p.client p.bucket object_key content content_type)
      give (ok (record { object_key = object_key; url = none; size = length content }))

    unfoldable pub s3_download : Text → Act F Text
    s3_download object_key =
        wrap lib.describe (codes "s3 download") (lib.get_object p.client p.bucket object_key)

    unfoldable pub s3_delete : Text → Write F
    s3_delete object_key =
        wrap lib.describe (codes "s3 delete") (lib.delete_object p.client p.bucket object_key)

    unfoldable pub s3_presigned_url : Text → ℤ → Act F Text
    s3_presigned_url object_key expiry =
        wrap lib.describe (codes "s3 presigned url")
          (lib.presign_get_object p.client p.bucket object_key expiry)

    unfoldable pub s3_ping : Write F
    s3_ping = wrap lib.describe (codes "s3 ping head bucket") (lib.head_bucket p.client p.bucket)

    unfoldable pub s3_provider : Provider F
    s3_provider = record {
      upload = s3_upload;
      download = s3_download;
      delete = s3_delete;
      presigned_url = s3_presigned_url;
      ping = s3_ping;
    }

module _ {F C R : Type 0} (lib : GcsLibrary F C R) where
  unfoldable pub new_gcs_provider : GcsConfig → Act F (Bucket C)
  unfolding if_given
  new_gcs_provider cfg = elim cfg.bucket [
    | [] ↦ give (err (message (codes "gcs: bucket is required")))
    | c ∷ cs ↦ do
      client ←
          wrap lib.describe (codes "gcs: create client")
            (lib.new_client (if_given cfg.credentials_json))
      give (ok (record { client = client; bucket = c ∷ cs }))
  ]

  module _ (p : Bucket C) where
    -- After a failed copy the writer is closed and the error of closing it dropped.
    unfoldable pub gcs_upload : Text → Text → Text → Act F UploadResult
    gcs_upload object_key file content_type f =
        let (writer, f1) = lib.open_writer p.client p.bucket object_key content_type f in
        let (copied, f2) = wrap lib.describe (codes "gcs upload") (lib.copy writer file) f1 in
        let (closed, f3) = wrap lib.describe (codes "gcs upload close") (lib.close writer) f2 in
        elim copied [
          | err e ↦ (err e, f3)
          | ok size ↦ elim closed [
            | err e ↦ (err e, f3)
            | ok u ↦ (ok (record { object_key = object_key; url = none; size = size }), f3)
          ]
        ]

    unfoldable pub gcs_download : Text → Act F Text
    gcs_download object_key =
        wrap lib.describe (codes "gcs download") (lib.new_reader p.client p.bucket object_key)

    unfoldable pub gcs_delete : Text → Write F
    gcs_delete object_key =
        wrap lib.describe (codes "gcs delete") (lib.delete p.client p.bucket object_key)

    unfoldable pub gcs_presigned_url : Text → ℤ → Act F Text
    gcs_presigned_url object_key expiry =
        give
          (err (message (codes "gcs presigned url not implemented: use Download endpoint instead")))

    unfoldable pub gcs_ping : Write F
    gcs_ping = wrap lib.describe (codes "gcs ping") (lib.attrs p.client p.bucket)

    unfoldable pub gcs_provider : Provider F
    gcs_provider = record {
      upload = gcs_upload;
      download = gcs_download;
      delete = gcs_delete;
      presigned_url = gcs_presigned_url;
      ping = gcs_ping;
    }

-- NewProvider with its three backends.
module _ {F G C C' R : Type 0} (files : Files F) (s3 : S3Library F G C)
    (gcs : GcsLibrary F C' R) where
  unfoldable pub new_cloud_provider : StorageConfig → Act F (Provider F)
  new_cloud_provider cfg =
      new_provider files (λ c. new_s3_provider s3 c >>= λ p. give (ok (s3_provider s3 p)))
        (λ c. new_gcs_provider gcs c >>= λ p. give (ok (gcs_provider gcs p))) cfg

-- NewProviderFromAppConfig: none is a nil configuration.
unfoldable pub storage_config : {F : Type 0} → Option (Config F) → StorageConfig
storage_config none = record {
  provider = [];
  local_base_path = [];
  public_base_url = [];
  s3 = record {
    bucket = [];
    region = [];
    endpoint = [];
    access_key_id = [];
    secret_access_key = [];
    force_path_style = false;
  };
  gcs = record { bucket = []; credentials_json = [] };
}
storage_config (some cfg) = record {
  provider = cfg.storage_provider;
  local_base_path = cfg.storage_local_base_path;
  public_base_url = cfg.storage_public_base_url;
  s3 = record {
    bucket = cfg.s3_bucket;
    region = cfg.s3_region;
    endpoint = cfg.s3_endpoint;
    access_key_id = cfg.s3_access_key_id;
    secret_access_key = cfg.s3_secret_access_key;
    force_path_style = cfg.s3_force_path_style;
  };
  gcs = record { bucket = cfg.gcs_bucket; credentials_json = cfg.gcs_credentials_json };
}
