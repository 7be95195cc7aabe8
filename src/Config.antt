-- ===== src/Config.antt =====
-- config/config.go: the configuration from the environment, with its fallbacks. What is logged is
-- left out; `F` is the type of a floating-point number.
pub mod Secrets
use golang_base.Base.{
  ℕ, zero, suc, Bool, true, false, ◌&&◌, ◌||◌, Option, none, some, List, [], ◌∷◌, Text, codes, ◌==◌,
  Dict, lookup, ℤ, if◌then◌else◌,
}
use golang_base.Base.Paths.{join_path, dir}
use golang_base.Domain.Errors.{Error, Result, ok, err}

pub record Config (F : Type 0) : Type 0 where
  pub app_service : Text
  pub port : Text
  pub database_url : Text
  pub redis_addr : Text
  pub redis_password : Text
  pub token_encrypt_key : Text
  pub rate_limit_max : ℤ
  pub rate_limit_exp_min : ℤ
  pub jwt_secret : Text
  pub log_level : Text
  pub log_pretty : Bool
  pub app_version : Text
  pub app_environment : Text
  pub metrics_token : Text
  pub tracing_enabled : Bool
  pub tracing_sample : F
  pub trusted_proxies : List Text
  pub smtp_host : Text
  pub smtp_port : ℤ
  pub smtp_username : Text
  pub smtp_password : Text
  pub smtp_from : Text
  pub storage_provider : Text
  pub storage_local_base_path : Text
  pub storage_public_base_url : Text
  pub max_upload_size : ℤ
  pub s3_bucket : Text
  pub s3_region : Text
  pub s3_endpoint : Text
  pub s3_access_key_id : Text
  pub s3_secret_access_key : Text
  pub s3_force_path_style : Bool
  pub gcs_bucket : Text
  pub gcs_credentials_json : Text

-- The variables that are set.
abbrev pub Env : Type 0
Env = Dict Text

-- `os.Getenv(key)`: empty if the variable is not set.
unfoldable pub getenv : Text → Env → Text
getenv key env = elim (lookup key env) [ none ↦ [] | some v ↦ v ]

abbrev pub default_jwt_secret : Text
default_jwt_secret = codes "default-secret-key-change-in-production"

-- The loop of findDotEnv with the rounds left; `exists` tells whether Stat finds a file.
unfoldable pub search_upwards : (Text → Bool) → ℕ → Text → Text
search_upwards exists zero d = codes ".env"
search_upwards exists (suc n) d =
    let candidate = join_path d (codes ".env") in
    let further = search_upwards exists n (dir d) in
    if exists candidate then candidate else if dir d == d then codes ".env" else further

unfoldable pub find_dot_env : Result Text → (Text → Bool) → Text
find_dot_env (err e) exists = codes ".env"
find_dot_env (ok cwd) exists = search_upwards exists 5 cwd

-- The first of two texts that is not empty.
unfoldable pub first_nonempty : Text → Text → Text
first_nonempty [] other = other
first_nonempty (c ∷ cs) other = c ∷ cs

unfoldable pub app_service_of : Env → Text → Text
app_service_of env service =
    if service == codes "golang-base"
    then first_nonempty (getenv (codes "APP_NAME") env) service
    else service

unfoldable pub jwt_secret_of : Env → Text → Text
jwt_secret_of env secret =
    if secret == [] || secret == default_jwt_secret
    then first_nonempty (getenv (codes "JWT_SECRET") env) secret
    else secret

unfoldable pub s3_region_of : Env → Text → Text
s3_region_of env region =
    first_nonempty region
      (first_nonempty (getenv (codes "AWS_REGION") env) (getenv (codes "AWS_DEFAULT_REGION") env))

-- The assignments after envconfig has filled the fields.
unfoldable pub with_fallbacks : {F : Type 0} → Env → Config F → Config F
unfolding app_service_of jwt_secret_of s3_region_of
with_fallbacks env cfg = record cfg {
  app_service = app_service_of env cfg.app_service;
  jwt_secret = jwt_secret_of env cfg.jwt_secret;
  smtp_username = first_nonempty cfg.smtp_username (getenv (codes "SMTP_USER") env);
  smtp_password = first_nonempty cfg.smtp_password (getenv (codes "SMTP_PASS") env);
  s3_access_key_id = first_nonempty cfg.s3_access_key_id (getenv (codes "AWS_ACCESS_KEY_ID") env);
  s3_secret_access_key =
      first_nonempty cfg.s3_secret_access_key (getenv (codes "AWS_SECRET_ACCESS_KEY") env);
  s3_region = s3_region_of env cfg.s3_region;
  s3_bucket = first_nonempty cfg.s3_bucket (getenv (codes "AWS_S3_BUCKET") env);
}

unfoldable pub env_after : Env → Result Env → Env
env_after env (ok loaded) = loaded
env_after env (err e) = env

-- `load` is godotenv.Load, whose error is only logged; `process` is envconfig.Process, whose error
-- ends the program.
unfoldable pub load_config :
    {F : Type 0}
    → (Text → Env → Result Env)
    → (Env → Result (Config F))
    → Result Text
    → (Text → Bool)
    → Env
    → Result (Config F)
unfolding with_fallbacks env_after
load_config load process cwd exists env =
    let env' = env_after env (load (find_dot_env cwd exists) env) in
    elim (process env') [ err e ↦ err e | ok cfg ↦ ok (with_fallbacks env' cfg) ]
