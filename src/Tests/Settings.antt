-- ===== src/Tests/Settings.antt =====
-- The theorems on the configuration, the log and the measurements.
use golang_base.Base.{
  ℕ, true, false, none, List, [], ◌∷◌, Text, codes, lookup, length, eqb, ◌==◌, pos, if◌then◌else◌,
  ◌≡◌, refl, arith, ◌+◌, ◌<◌, ltb, ◌↔◌, inl, inr, Bool-cases,
}
use golang_base.Base.Paths
use golang_base.Base.Space.{trim_space, trim_front, trim_back}
use golang_base.Config.{
  Config, Env, getenv, default_jwt_secret, first_nonempty, with_fallbacks, load_config,
}
use golang_base.Config.Secrets.{set_or, default_region, EnvLaws, load_config-secrets}
use golang_base.Domain.Errors.{Result, ok, err, external}
use golang_base.Middleware.Metrics.{
  Ending, panicked, Context, started, metrics, pass, metrics_auth, route_label, status_code_label,
}
use golang_base.Middleware.Metrics.Gauge.{metrics-balanced}
use golang_base.Middleware.Metrics.Guard.{IsAuthorized, metrics_auth-pass}
use golang_base.Pkg.Logger.{
  System, Logger, close_all, open_levels, build_handler, first_of, install, level_or_default,
  is_current, resolve_dir, parse_level, setup,
}
use golang_base.Pkg.Logger.Opened.{listed, SystemLaws}
use golang_base.Pkg.Logger.Setup.{Tracks, setup-Tracks}

-- The fields that a process with these two variables has.
abbrev config_of : Text → Text → Config ℕ
config_of secret region = record {
  app_service = codes "golang-base";
  port = codes "3100";
  database_url = codes "db";
  redis_addr = [];
  redis_password = [];
  token_encrypt_key = [];
  rate_limit_max = pos 100;
  rate_limit_exp_min = pos 1;
  jwt_secret = secret;
  log_level = codes "info";
  log_pretty = false;
  app_version = codes "dev";
  app_environment = codes "development";
  metrics_token = [];
  tracing_enabled = false;
  tracing_sample = 1;
  trusted_proxies = [];
  smtp_host = [];
  smtp_port = pos 587;
  smtp_username = [];
  smtp_password = [];
  smtp_from = [];
  storage_provider = codes "local";
  storage_local_base_path = codes "./storage/app/public";
  storage_public_base_url = codes "/storage";
  max_upload_size = pos 10_485_760;
  s3_bucket = [];
  s3_region = region;
  s3_endpoint = [];
  s3_access_key_id = [];
  s3_secret_access_key = [];
  s3_force_path_style = false;
  gcs_bucket = [];
  gcs_credentials_json = [];
}

abbrev process : Env → Result (Config ℕ)
process env = ok (
    config_of (set_or default_jwt_secret (lookup (codes "JWT_SECRET") env))
      (set_or default_region (lookup (codes "S3_REGION") env)))

process_laws : EnvLaws process
process_laws = record {
  jwt_secret = λ env cfg h. ground (arith, h);
  s3_region = λ env cfg h. ground (arith, h);
}

-- Only AWS_REGION is set: it is not read.
abbrev env : Env
env = (codes "AWS_REGION", codes "eu") ∷ []

abbrev no_file : Text → Env → Result Env
no_file path env = ok env

load_config-secrets_example :
    (codes "default-secret-key-change-in-production"
      ≡ set_or default_jwt_secret (lookup (codes "JWT_SECRET") env))
    × (codes "ap-southeast-1"
        ≡ first_nonempty (set_or default_region (lookup (codes "S3_REGION") env)) (
            first_nonempty
              (getenv (codes "AWS_REGION") env)
              (getenv (codes "AWS_DEFAULT_REGION") env)))
unfolding load_config getenv first_nonempty lookup ◌==◌
load_config-secrets_example =
    load_config-secrets no_file process process_laws (err (external 0)) (λ path. false) env env
      (with_fallbacks env (config_of default_jwt_secret default_region)) refl refl

-- A system with at most three open files, a list of numbers: a new one is above all of them.
unfoldable above : List ℕ → ℕ
above [] = 1
above (f ∷ files) = f + above files

above-pos : (files : List ℕ) → 0 < above files
unfolding above
above-pos [] = omega arith
above-pos (f ∷ files) = omega (arith, above-pos files)

listed-lt : (j : ℕ) (files : List ℕ) → listed j files ≡ true → j < above files
unfolding above
listed-lt j [] h = cc
listed-lt j (f ∷ files) h = elim (Bool-cases (listed j files)) [
  | inl later ↦ omega (arith, listed-lt j files later)
  | inr here ↦ ground (arith, above-pos files)
]

above-new : (files : List ℕ) → listed (above files) files ≡ false
above-new files = elim (Bool-cases (listed (above files) files)) [
  | inl there ↦ absurd (omega (arith, listed-lt (above files) files there))
  | inr new ↦ new
]

unfoldable without : ℕ → List ℕ → List ℕ
without f [] = []
without f (g ∷ files) = let rest = without f files in if eqb g f then rest else g ∷ rest

listed-without :
    (f j : ℕ) (files : List ℕ)
    → listed j (without f files) ≡ (if eqb f j then false else listed j files)
unfolding without
listed-without f j [] = ground arith
listed-without f j (g ∷ files) = ground (arith, listed-without f j files)

abbrev system : System (List ℕ) (Unit {0})
system = record {
  mkdir_all = λ d w. (ok tt, w);
  open_append =
      λ path w. if ltb (length w) 3 then (ok (above w), above w ∷ w) else (err (external 0), w);
  close = λ f w. without f w;
  set_default = λ h w. w;
  stdout_handler = λ l. tt;
  fanout_handler = λ pretty l files. tt;
}

system_laws : SystemLaws system
system_laws = record {
  is_open = λ w j. listed j w;
  mkdir_lem = λ d w j. refl;
  open_lem = λ path w f j h. ground (arith, h);
  open_new = λ path w f h. ground (arith, h, above-new w);
  open_failed = λ path w e j h. ground (arith, h);
  close_lem = λ f w j. listed-without f j w;
  default_lem = λ h w j. refl;
}

-- The logger before the first call.
abbrev idle : Logger
idle = record {
  app_output = none;
  open_files = [];
  current_level = pos 0;
  initialised = false;
  active_dir = [];
  active_pretty = false;
  dir = [];
}

setup-Tracks_example : Tracks system system_laws (setup system (λ s. s) (codes "warn") true idle [])
unfolding system_laws
setup-Tracks_example =
    setup-Tracks system system_laws (λ s. s) (codes "warn") true idle [] (λ j. refl)

-- The fourth file cannot be opened: those before it are closed.
closed_again : (setup system (λ s. s) (codes "warn") true idle []).1 ≡ []
unfolding setup is_current resolve_dir parse_level level_or_default build_handler open_levels
    close_all install first_of above without ◌==◌ trim_space trim_front trim_back Paths.rev_onto
    Paths.join_path
closed_again = refl

-- A request that panics behind the middleware.
abbrev quiet : Context
quiet = record { response_status = 200; matched = none; in_flight = pos 2; observations = [] }

abbrev failing : Context → Ending × Context
failing c = (panicked, c)

metrics-balanced_example :
    ((metrics (codes "/x") (codes "GET") failing quiet).1.in_flight ≡ pos 2)
    × ((metrics (codes "/x") (codes "GET") failing quiet).0 ≡ panicked)
    × ((metrics (codes "/x") (codes "GET") failing quiet).1.observations
        ≡ record {
          route = route_label (started quiet);
          method = codes "GET";
          status = status_code_label 500;
        }
          ∷ [])
unfolding ◌==◌
metrics-balanced_example = metrics-balanced (codes "/x") (codes "GET") failing quiet refl refl

metrics_auth-pass_example :
    (metrics_auth (codes "t0") (codes "bearer t0") ≡ pass)
    ↔ IsAuthorized (codes "t0") (codes "bearer t0")
metrics_auth-pass_example = metrics_auth-pass (codes "t0") (codes "bearer t0")
