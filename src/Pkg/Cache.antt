-- ===== src/Pkg/Cache.antt =====
-- internal/pkg/cache/cache.go: values of one type in Redis, as JSON. No client stands for
-- `database.Redis == nil`.
pub mod Remembered
use golang_base.Base.{ℕ, Option, none, some, Text}
use golang_base.Domain.Errors.{Error, Result, ok, err}
use golang_base.Infra.{Write}
use golang_base.Infra.Monad.{Act}

-- GET, SET with a time to live, DEL; `missing` is redis.Nil.
pub record Client (R : Type 0) : Type 0 where
  pub get : Text → R → Result Text
  pub set : Text → Text → ℕ → Write R
  pub del : Text → Write R
  pub missing : Error

-- encoding/json on the type of the values.
pub record JsonOf (A : Type 0) : Type 0 where
  pub marshal : A → Result Text
  pub unmarshal : Text → Result A

module _ {R A : Type 0} (client : Client R) (json : JsonOf A) where
  unfoldable pub set_value : Text → A → ℕ → Write (Option R)
  set_value key value ttl none = (ok tt, none)
  set_value key value ttl (some r) = elim (json.marshal value) [
    | err e ↦ (err e, some r)
    | ok b ↦ let (done, r') = client.set key b ttl r in (done, some r')
  ]

  unfoldable pub get_value : Text → Option R → Result A
  get_value key none = err client.missing
  get_value key (some r) = elim (client.get key r) [ err e ↦ err e | ok b ↦ json.unmarshal b ]

  unfoldable pub delete_key : Text → Write (Option R)
  delete_key key none = (ok tt, none)
  delete_key key (some r) = let (done, r') = client.del key r in (done, some r')

  -- The fallback may change a state of its own; the error of SET is dropped.
  unfoldable pub remember :
      {S : Type 0} → Text → ℕ → Act S A → Option R → S → Result A × (Option R × S)
  remember key ttl fallback r s = elim (get_value key r) [
    | ok cached ↦ (ok cached, (r, s))
    | err e ↦
        let (fresh, s') = fallback s in
        elim fresh [ err e' ↦ (err e', (r, s')) | ok a ↦ (ok a, ((set_value key a ttl r).1, s')) ]
  ]
