-- ===== src/Tests/Buckets.antt =====
-- The theorem on the backends of storage: S3 and GCS over a map, beside the disk of Tests/Storage.
use golang_base.Base.{
  false, none, some, [], ◌∷◌, ◌++◌, Text, codes, Dict, lookup, insert, erase, lookup-insert,
  eq_refl, length, ◌==◌, ◌≡◌, refl, sym, arith,
}
use golang_base.Domain.Errors.{external, message, ok, err}
use golang_base.Pkg.Storage.{StorageConfig, Provider, UploadResult, new_provider}
use golang_base.Pkg.Storage.Cloud.{
  S3Library, GcsLibrary, if_given, new_s3_provider, new_gcs_provider, gcs_provider,
  new_cloud_provider, gcs_upload,
}
use golang_base.Pkg.Storage.Kept.{S3Laws, GcsLaws}
use golang_base.Pkg.Storage.Made.{new_cloud_provider-download}
use golang_base.Tests.Memory.Store.{ok-injective}
use golang_base.Tests.Storage.{disk, disk_laws}

-- The object of a bucket.
abbrev slot : Text → Text → Text
slot bucket key = bucket ++ b'/' ∷ key

abbrev s3 : S3Library (Dict Text) Text Text
s3 = record {
  load_config = λ region creds f. (ok [], f);
  new_client = λ config endpoint path_style. [];
  read_all = λ file f. (ok file, f);
  put_object = λ c b key body kind f. (ok tt, insert (slot b key) body f);
  get_object =
      λ c b key f. (elim (lookup (slot b key) f) [ none ↦ err (external 1) | some v ↦ ok v ], f);
  delete_object = λ c b key f. (ok tt, erase (slot b key) f);
  presign_get_object = λ c b key expiry f. (ok (slot b key), f);
  head_bucket = λ c b f. (ok tt, f);
  describe = λ e. [];
}

s3_laws : S3Laws s3
s3_laws = record {
  read_all_lem = λ file content f h. sym (ok-injective file content h);
  get-put = λ c b key content kind f h.
      ground (arith, lookup-insert (slot b key) (slot b key) content f, eq_refl (slot b key));
}

-- A writer is the object that it writes.
abbrev gcs : GcsLibrary (Dict Text) Text Text
gcs = record {
  new_client = λ creds f. (ok [], f);
  open_writer = λ c b key kind f. (slot b key, f);
  copy = λ w file f. (ok (length file), insert w file f);
  close = λ w f. (ok tt, f);
  new_reader =
      λ c b key f. (elim (lookup (slot b key) f) [ none ↦ err (external 1) | some v ↦ ok v ], f);
  delete = λ c b key f. (ok tt, erase (slot b key) f);
  attrs = λ c b f. (ok tt, f);
  describe = λ e. [];
}

gcs_laws : GcsLaws gcs
gcs_laws = record {
  read-close = λ c b key content kind f n h k.
      ground (arith, lookup-insert (slot b key) (slot b key) content f, eq_refl (slot b key));
}

abbrev cfg : StorageConfig
cfg = record {
  provider = codes "gcs";
  local_base_path = [];
  public_base_url = [];
  s3 = record {
    bucket = [];
    region = [];
    endpoint = [];
    access_key_id = [];
    secret_access_key = [];
    force_path_style = false;
  };
  gcs = record { bucket = codes "files"; credentials_json = [] };
}

abbrev files_bucket : Provider (Dict Text)
files_bucket = gcs_provider gcs (record { client = []; bucket = codes "files" })

abbrev note_stored : UploadResult
note_stored = record { object_key = codes "a.txt"; url = none; size = 2 }

abbrev with_note : Dict Text
with_note = (codes "files/a.txt", codes "hi") ∷ []

new_cloud_provider-download_example :
    (codes "a.txt" ≡ codes "a.txt")
    × ((files_bucket.download (codes "a.txt") with_note).0 ≡ ok (codes "hi"))
unfolding new_cloud_provider new_provider new_gcs_provider gcs_provider gcs_upload if_given ◌==◌
    insert
new_cloud_provider-download_example =
    new_cloud_provider-download disk s3 gcs disk_laws s3_laws gcs_laws cfg [] [] files_bucket refl
      (codes "a.txt") (codes "hi") (codes "text/plain") [] with_note note_stored refl

-- Without a bucket there is no backend.
no_bucket : (new_s3_provider s3 cfg.s3 []).0 ≡ err (message (codes "s3: bucket is required"))
unfolding new_s3_provider
no_bucket = refl
