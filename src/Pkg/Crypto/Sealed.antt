-- ===== src/Pkg/Crypto/Sealed.antt =====
-- internal/pkg/crypto/token.go: what was encrypted is decrypted.
use golang_base.Base.{
  ℕ, zero, suc, false, [], ◌∷◌, ◌++◌, Text, length, length-append, ltb, take_bytes, drop_bytes, ◌≡◌,
  refl, ap, arith, inl, inr, Option-cases,
}
use golang_base.Domain.Errors.{ok, Result-cases}
use golang_base.Pkg.Crypto.{Cipher, fit, key_of, encrypt, decrypt}

-- The encoding and the cipher give back what went in.
pub record CipherLaws (cipher : Cipher) : Type 0 where
  pub decode-encode : (b : Text) → cipher.decode (cipher.encode b) ≡ ok b
  pub open-seal :
      (k n plain : Text)
      → length n ≡ cipher.nonce_size
      → cipher.open_sealed k n (cipher.seal k n plain) ≡ ok plain

take_append : (n : Text) (r : Text) → take_bytes (length n) (n ++ r) ≡ n
unfolding take_bytes
take_append [] r = refl
take_append (x ∷ n) r = ap (λ t. x ∷ t) (take_append n r)

drop_append : (n : Text) (r : Text) → drop_bytes (length n) (n ++ r) ≡ r
unfolding drop_bytes
drop_append [] r = refl
drop_append (x ∷ n) r = drop_append n r

fit-length : (n : ℕ) (b : Text) → length (fit n b) ≡ n
unfolding fit
fit-length zero b = refl
fit-length (suc n) [] = ap suc (fit-length n [])
fit-length (suc n) (x ∷ b) = ap suc (fit-length n b)

-- The key has 32 bytes, as AES-256 wants.
pub key_of-length : (env k : Text) → key_of env ≡ ok k → length k ≡ 32
unfolding key_of
key_of-length [] k h = cc
key_of-length (c ∷ cs) k h = ground (arith, fit-length 32 (c ∷ cs))

module _ (cipher : Cipher) (laws : CipherLaws cipher) (env : Text) where
  split_sealed :
      (k n plain : Text)
      → length n ≡ cipher.nonce_size
      → (ltb (length (n ++ cipher.seal k n plain)) cipher.nonce_size ≡ false)
        × (take_bytes cipher.nonce_size (n ++ cipher.seal k n plain) ≡ n)
        × (drop_bytes cipher.nonce_size (n ++ cipher.seal k n plain) ≡ cipher.seal k n plain)
  split_sealed k n plain size = (
    ground (arith, length-append n (cipher.seal k n plain)),
    rw (← size) (take_append n (cipher.seal k n plain)),
    rw (← size) (drop_append n (cipher.seal k n plain)),
  )

  -- Under the laws of the cipher and the encoding, with a nonce of the cipher's size: Decrypt gives
  -- back what Encrypt sealed, under the same key.
  pub decrypt-encrypt :
      (n plain sealed : Text)
      → length n ≡ cipher.nonce_size
      → encrypt cipher env (ok n) plain ≡ ok sealed
      → decrypt cipher env sealed ≡ ok plain
  unfolding encrypt decrypt
  decrypt-encrypt n plain sealed size h = elim (Result-cases (key_of env)) [
    | inr (e, failed) ↦ absurd (ground arith)
    | inl (k, keyed) ↦ elim (Option-cases (cipher.new_gcm k)) [
      | inr (e, failed) ↦ absurd (ground arith)
      | inl made ↦
          let (long, front, back) = split_sealed k n plain size in
          ground (
            arith,
            laws.decode-encode (n ++ cipher.seal k n plain),
            laws.open-seal k n plain size,
            long,
            front,
            back,
          )
    ]
  ]
