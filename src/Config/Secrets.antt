-- ===== src/Config/Secrets.antt =====
-- config/config.go: where the secret of the tokens and the region of the buckets come from.
use golang_base.Base.{
  Bool, true, false, Option, none, some, [], ◌∷◌, Text, codes, lookup, ◌≡◌, refl, sym, ap, ◌∙◌,
  arith, inl, inr, if◌then◌else◌,
}
use golang_base.Domain.Errors.{Result, ok, Result-cases}
use golang_base.Config.{
  Config, Env, getenv, default_jwt_secret, find_dot_env, env_after, first_nonempty, jwt_secret_of,
  s3_region_of, with_fallbacks, load_config,
}

-- The value of a variable that is set, also if it is empty; else the default.
abbrev pub set_or : Text → Option Text → Text
set_or default none = default
set_or default (some v) = v

abbrev pub default_region : Text
default_region = codes "ap-southeast-1"

-- What envconfig documents of two fields: a field has the value of its variable, or its default if
-- the variable is not set.
pub record EnvLaws {F : Type 0} (process : Env → Result (Config F)) : Type 0 where
  pub jwt_secret :
      (env : Env) (cfg : Config F)
      → process env ≡ ok cfg
      → cfg.jwt_secret ≡ set_or default_jwt_secret (lookup (codes "JWT_SECRET") env)
  pub s3_region :
      (env : Env) (cfg : Config F)
      → process env ≡ ok cfg
      → cfg.s3_region ≡ set_or default_region (lookup (codes "S3_REGION") env)

first_nonempty_same : (s : Text) → first_nonempty s s ≡ s
unfolding first_nonempty
first_nonempty_same [] = refl
first_nonempty_same (c ∷ cs) = refl

getenv-none : (key : Text) (env : Env) → lookup key env ≡ none → getenv key env ≡ []
unfolding getenv
getenv-none key env h = rw (h, getenv)

getenv-some : (key v : Text) (env : Env) → lookup key env ≡ some v → getenv key env ≡ v
unfolding getenv
getenv-some key v env h = rw (h, getenv)

unchanged :
    (b : Bool) (g s : Text) → first_nonempty g s ≡ s → (if b then first_nonempty g s else s) ≡ s
unchanged true g s h = h
unchanged false g s h = refl

-- The fallback of the secret reads the variable that the field has been read from.
fallback-set_or :
    (env : Env) (o : Option Text)
    → lookup (codes "JWT_SECRET") env ≡ o
    → jwt_secret_of env (set_or default_jwt_secret o) ≡ set_or default_jwt_secret o
unfolding jwt_secret_of
fallback-set_or env none h = unchanged _ _ default_jwt_secret (
    ap (λ g. first_nonempty g default_jwt_secret) (getenv-none (codes "JWT_SECRET") env h)
    ∙ (unfold first_nonempty in refl))
fallback-set_or env (some v) h = unchanged _ _ v (
    ap (λ g. first_nonempty g v) (getenv-some (codes "JWT_SECRET") v env h) ∙ first_nonempty_same v)

-- If envconfig fills these two fields as it documents, and the configuration is loaded: of the
-- variables as they are once the .env file was read, if it could be, the secret of the tokens is
-- the value of JWT_SECRET if that is set, also if it is empty, and else the default that stands in
-- the program; the region of the buckets is the value of S3_REGION, or its default if that is not
-- set, and the first of AWS_REGION and AWS_DEFAULT_REGION that is not empty only if S3_REGION is
-- set and empty.
pub load_config-secrets :
    {F : Type 0} (load : Text → Env → Result Env) (process : Env → Result (Config F))
    (laws : EnvLaws process) (cwd : Result Text) (exists : Text → Bool) (env env' : Env)
    (cfg : Config F)
    → env_after env (load (find_dot_env cwd exists) env) ≡ env'
    → load_config load process cwd exists env ≡ ok cfg
    → (cfg.jwt_secret ≡ set_or default_jwt_secret (lookup (codes "JWT_SECRET") env'))
      × (cfg.s3_region
          ≡ first_nonempty (set_or default_region (lookup (codes "S3_REGION") env')) (
              first_nonempty
                (getenv (codes "AWS_REGION") env')
                (getenv (codes "AWS_DEFAULT_REGION") env')))
unfolding load_config s3_region_of
load_config-secrets load process laws cwd exists env env' cfg loaded h =
    elim (Result-cases (process env')) [
      | inr (e, failed) ↦ absurd (ground (arith, loaded, failed, h))
      | inl (read, filled) ↦
          let made : with_fallbacks env' read ≡ cfg = ground (arith, loaded, filled, h) in
          (
            ap (λ c. c.jwt_secret) (sym made)
                ∙ ap (jwt_secret_of env') (laws.jwt_secret env' read filled)
                ∙ fallback-set_or env' (lookup (codes "JWT_SECRET") env') refl,
            ap (λ c. c.s3_region) (sym made)
                ∙ ap (s3_region_of env') (laws.s3_region env' read filled),
          )
    ]
