-- ===== src/Tests/Packages.antt =====
-- The theorems on the cache, on OCR answers and on the runs of seeders.
use mathlib.Core.List.{Perm}
use golang_base.Base.{
  map, ℕ, suc, none, some, List, [], ◌∷◌, ◌++◌, Text, codes, Dict, ◌==◌, lookup, insert, erase,
  lookup-insert, eq_refl, contains, index_byte, take_bytes, drop_bytes, ◌≡◌, refl, arith,
}
use golang_base.Domain.Errors.{external, ok, err}
use golang_base.Infra.Monad.{Act}
use golang_base.Pkg.Cache.{Client, JsonOf, get_value, remember}
use golang_base.Pkg.Cache.Remembered.{CacheLaws, remember-remember}
use golang_base.Pkg.Crypto.{Cipher, key_of, encrypt, decrypt}
use golang_base.Pkg.Crypto.Sealed.{CipherLaws, decrypt-encrypt}
use golang_base.Pkg.Ocr.{last_index_byte, first_json_object}
use golang_base.Pkg.Ocr.Object.{first_json_object_lem}
use golang_base.Seed.{
  Seeder, seeders_of, run_all, run_seeders, sort_by_order, insert_by_order, name_failure,
}
use golang_base.Seed.Runs.{IsAscending, Ran, run_all-Ran}

-- A Redis that is a map, and texts as JSON of themselves.
abbrev map_client : Client (Dict Text)
map_client = record {
  get = λ k r. elim (lookup k r) [ none ↦ err (external 0) | some v ↦ ok v ];
  set = λ k v ttl r. (ok tt, insert k v r);
  del = λ k r. (ok tt, erase k r);
  missing = external 0;
}

abbrev plain_json : JsonOf Text
plain_json = record { marshal = λ a. ok a; unmarshal = λ b. ok b }

cache_laws : CacheLaws map_client plain_json
cache_laws = record {
  get_set = λ k v ttl r h. ground (arith, lookup-insert k k v r, eq_refl k);
  unmarshal-marshal = λ a b h. ground (arith, h);
}

-- A fallback that answers with a text and counts its calls.
abbrev counted : Text → Act ℕ Text
counted answer n = (ok answer, suc n)

remember-remember_example :
    remember map_client plain_json
      (codes "k")
      60
      (counted (codes "second"))
      (remember map_client plain_json (codes "k") 60 (counted (codes "first")) (some []) 0).1.0
      7
    ≡ (
      ok (codes "first"),
      (
        (remember map_client plain_json (codes "k") 60 (counted (codes "first")) (some []) 0).1.0,
        7,
      ),
    )
unfolding remember get_value lookup
remember-remember_example =
    remember-remember map_client plain_json cache_laws (codes "k") (codes "first") 60 60
      (counted (codes "first")) (counted (codes "second")) [] 0 7 (codes "first") refl refl refl

first_json_object_lem_example :
    (a : Text) × (m : Text) × (b : Text) × (codes "so: {x} ok" ≡ a ++ b'{' ∷ (m ++ b'}' ∷ b))
    × (codes "{x}" ≡ b'{' ∷ (m ++ b'}' ∷ []))
    × (index_byte a b'{' ≡ none)
    × (last_index_byte b b'}' ≡ none)
unfolding first_json_object index_byte last_index_byte take_bytes drop_bytes
first_json_object_lem_example = first_json_object_lem (codes "so: {x} ok") (codes "{x}") refl

-- Two seeders over a list of what ran, the later one registered first.
abbrev noting : Text → ℕ → Seeder (List Text)
noting name order = record {
  name = name;
  order = order;
  run = λ s. (ok tt, name ∷ s);
  with_args = none;
}

abbrev registry : Dict (Seeder (List Text))
registry = (codes "b", noting (codes "b") 2) ∷ (codes "a", noting (codes "a") 1) ∷ []

run_all_test : run_all (λ e. []) (codes "c" ∷ []) registry [] ≡ (ok tt, codes "b" ∷ codes "a" ∷ [])
unfolding run_all run_seeders sort_by_order insert_by_order seeders_of name_failure contains ◌==◌
run_all_test = refl

run_all-Ran_example :
    (xs : List (Seeder (List Text))) × IsAscending xs
    × Perm xs (map (λ e. e.1) registry)
    × Ran
        (λ e. [])
        (codes "c" ∷ [])
        xs
        []
        (run_all (λ e. []) (codes "c" ∷ []) registry []).0
        (run_all (λ e. []) (codes "c" ∷ []) registry []).1
run_all-Ran_example = run_all-Ran (λ e. []) (codes "c" ∷ []) registry []

-- A cipher that leaves the text as it is, with nonces of one byte.
abbrev plain_cipher : Cipher
plain_cipher = record {
  new_gcm = λ k. none;
  nonce_size = 1;
  seal = λ k n plain. plain;
  open_sealed = λ k n sealed. ok sealed;
  encode = λ b. b;
  decode = λ b. ok b;
}

plain_cipher_laws : CipherLaws plain_cipher
plain_cipher_laws = record { decode-encode = λ b. refl; open-seal = λ k n plain h. refl }

decrypt-encrypt_example : decrypt plain_cipher (codes "secret") (9 ∷ codes "hi") ≡ ok (codes "hi")
unfolding encrypt key_of
decrypt-encrypt_example =
    decrypt-encrypt plain_cipher plain_cipher_laws (codes "secret") (9 ∷ []) (codes "hi")
      (9 ∷ codes "hi") refl refl
