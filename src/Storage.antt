-- ===== src/Storage.antt =====
-- internal/modules/storage: the service over a backend (service.go) and its HTTP handlers
-- (handler.go). A formatted number is what fmt.Sprintf gives for %d, and an error's text for %v.
pub mod Limit
use golang_base.Base.{
  ℕ, Bool, true, false, not, ◌||◌, ◌+◌, ◌*◌, Option, none, some, List, [], ◌∷◌, ◌++◌, Text, codes,
  ◌==◌, cut_suffix, map, eqb, ltb, ℤ, pos, negsuc, is_positive, to_ℕ, if◌then◌else◌,
}
use golang_base.Base.Paths.{ext, base_name, trim_left, trim_right}
use golang_base.Domain.Errors.{Error, Result, ok, err}
use golang_base.Infra.{Write}
use golang_base.Infra.Monad.{Act}
use golang_base.Base.Decimal.{atoi}
use golang_base.Pkg.Response.{Response, ok_response, created, bad_request, internal_error}
use golang_base.Pkg.Storage.{Provider, UploadResult}

-- `strings.ReplaceAll(s, " ", "-")`
abbrev pub dash_spaces : Text → Text
dash_spaces s = map (λ c. if eqb c b' ' then b'-' else c) s

-- `strings.TrimSuffix(s, suffix)`
abbrev trim_suffix : Text → Text → Text
trim_suffix s suffix = elim (cut_suffix s suffix) [ none ↦ s | some before ↦ before ]

-- Where an upload goes; `month` is the time of the call in the layout "2006/01".
unfoldable pub object_key_of : Text → Text → Text → Text → Text
object_key_of uid month filename folder =
    let extension = ext filename in
    let base = dash_spaces (trim_suffix (base_name filename) extension) in
    let trimmed = trim_left b'/' (trim_right b'/' folder) in
    let name = uid ++ b'-' ∷ (base ++ extension) in
    if trimmed == [] then codes "uploads/" ++ (month ++ b'/' ∷ name) else trimmed ++ b'/' ∷ name

module _ {F : Type 0} (provider : Provider F) where
  unfoldable pub upload : Text → Text → Text → Text → Text → Text → Act F UploadResult
  upload uid month file filename content_type folder =
      provider.upload (object_key_of uid month filename folder) file
        (if content_type == [] then codes "application/octet-stream" else content_type)

  unfoldable pub download : Text → Act F Text
  download object_key = provider.download object_key

  unfoldable pub delete : Text → Write F
  delete object_key = provider.delete object_key

  -- An expiry in nanoseconds, 15 minutes if it is not positive.
  unfoldable pub presigned_url : Text → ℤ → Act F Text
  presigned_url object_key expiry =
      provider.presigned_url object_key
        (if is_positive expiry then expiry else pos (15 * 60 * 1_000_000_000))

  unfoldable pub ping : Write F
  ping = provider.ping

-- The file of a form: `open` is none if it cannot be opened.
pub record FormFile : Type 0 where
  pub filename : Text
  pub size : ℕ
  pub content_type : Text
  pub content : Option Text

pub data Payload : Type 0 where
  uploaded_view : UploadResult → Payload
  link_view : Text → Text → ℕ → Payload
  deleted_view : Text → Text → Payload
  status_view : Text → Text → Payload

-- NewHandler: 10 MB if the limit is not positive.
unfoldable pub max_upload_size : ℤ → ℕ
max_upload_size n = if is_positive n then to_ℕ n else 10 * 1024 * 1024

-- The minutes of a presigned URL: a number between 1 and 1440, else 15.
unfoldable pub expiry_minutes : Text → ℕ
expiry_minutes s = elim (atoi s) [
  | none ↦ 15
  | some n ↦ if not (is_positive n) || ltb 1440 (to_ℕ n) then 15 else to_ℕ n
]

module _ {F : Type 0} (provider : Provider F) (show_number : ℕ → Text)
    (describe : Error → Text) where
  unfoldable pub upload_file : ℕ → Text → Text → Option FormFile → Text → F → Response Payload × F
  upload_file limit uid month none folder f =
      (bad_request (codes "file field is required in form-data"), f)
  upload_file limit uid month (some file) folder f =
      if ltb limit file.size
      then (
        bad_request (
            codes "file size exceeds maximum allowed limit ("
            ++ (show_number limit ++ codes " bytes)")),
        f,
      )
      else elim file.content [
        | none ↦ (internal_error (codes "failed to open uploaded file"), f)
        | some content ↦
            let (r, f') =
              upload provider uid month content file.filename file.content_type folder f in
            (
              elim r [
                | err e ↦ internal_error (codes "upload failed: " ++ describe e)
                | ok result ↦ created (uploaded_view result)
              ],
              f',
            )
      ]

  unfoldable pub get_presigned_url : Text → Text → F → Response Payload × F
  get_presigned_url [] minutes f = (bad_request (codes "query parameter 'key' is required"), f)
  get_presigned_url (c ∷ cs) minutes f =
      let (r, f') =
        presigned_url provider (c ∷ cs) (pos (expiry_minutes minutes * (60 * 1_000_000_000))) f in
      (
        elim r [
          | err e ↦ internal_error (codes "failed to generate presigned URL: " ++ describe e)
          | ok url ↦ ok_response (link_view (c ∷ cs) url (expiry_minutes minutes))
        ],
        f',
      )

  unfoldable pub delete_file : Text → F → Response Payload × F
  delete_file [] f = (bad_request (codes "query parameter 'key' is required"), f)
  delete_file (c ∷ cs) f =
      let (r, f') = delete provider (c ∷ cs) f in
      (
        elim r [
          | err e ↦ internal_error (codes "failed to delete file: " ++ describe e)
          | ok u ↦ ok_response (deleted_view (codes "file deleted successfully") (c ∷ cs))
        ],
        f',
      )

  unfoldable pub ping_storage : F → Response Payload × F
  ping_storage f =
      let (r, f') = ping provider f in
      (
        elim r [
          | err e ↦ internal_error (codes "storage ping failed: " ++ describe e)
          | ok u ↦ ok_response (status_view (codes "connected") (codes "storage"))
        ],
        f',
      )
