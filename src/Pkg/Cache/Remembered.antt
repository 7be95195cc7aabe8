-- ===== src/Pkg/Cache/Remembered.antt =====
-- internal/pkg/cache/cache.go: what Remember gives a second time.
use golang_base.Base.{ℕ, some, Text, ◌≡◌, arith, inl, inr}
use golang_base.Domain.Errors.{ok, Result-cases}
use golang_base.Infra.Monad.{Act}
use golang_base.Pkg.Cache.{Client, JsonOf, set_value, get_value, remember}

-- A SET that succeeds takes effect, and JSON gives back what was marshalled.
pub record CacheLaws {R A : Type 0} (client : Client R) (json : JsonOf A) : Type 0 where
  pub get_set :
      (k v : Text) (ttl : ℕ) (r : R)
      → (client.set k v ttl r).0 ≡ ok tt
      → client.get k (client.set k v ttl r).1 ≡ ok v
  pub unmarshal-marshal : (a : A) (b : Text) → json.marshal a ≡ ok b → json.unmarshal b ≡ ok a

module _ {R A S : Type 0} (client : Client R) (json : JsonOf A) (laws : CacheLaws client json) where
  -- If a SET that succeeds takes effect and JSON gives values back: after Remember returned a value
  -- that marshals, and whose SET does not fail, a second Remember of the key returns the same
  -- value; it changes neither the cache nor the state of its fallback, which it does not call.
  pub remember-remember :
      (key b : Text) (ttl ttl' : ℕ) (fallback fallback' : Act S A) (r : R) (s t : S) (a : A)
      → json.marshal a ≡ ok b
      → (client.set key b ttl r).0 ≡ ok tt
      → (remember client json key ttl fallback (some r) s).0 ≡ ok a
      → remember client json key ttl' fallback'
          (remember client json key ttl fallback (some r) s).1.0
          t
        ≡ (ok a, ((remember client json key ttl fallback (some r) s).1.0, t))
  unfolding remember set_value get_value
  remember-remember key b ttl ttl' fallback fallback' r s t a m kept h =
      elim (Result-cases (get_value client json key (some r))) [
        | inl (cached, hit) ↦ ground arith
        | inr (e, missed) ↦ elim (Result-cases (fallback s).0) [
          | inr (e', failed) ↦ absurd (ground arith)
          | inl (fresh, made) ↦
              ground (arith, laws.get_set key b ttl r kept, laws.unmarshal-marshal a b m)
        ]
      ]
