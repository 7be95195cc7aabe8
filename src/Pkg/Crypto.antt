-- ===== src/Pkg/Crypto.antt =====
-- internal/pkg/crypto/token.go: tokens sealed with AES-256-GCM and written in base64. The cipher,
-- the encoding and the random nonce are package crypto's and encoding's.
pub mod Sealed
use golang_base.Base.{
  ℕ, zero, suc, Option, none, some, [], ◌∷◌, ◌++◌, Text, codes, length, ltb, take_bytes, drop_bytes,
  if◌then◌else◌,
}
use golang_base.Domain.Errors.{Error, message, Result, ok, err}

-- Gcm: `seal key nonce plain` and `open_sealed key nonce sealed`; Encoding: RawURLEncoding.
pub record Cipher : Type 0 where
  pub new_gcm : Text → Option Error
  pub nonce_size : ℕ
  pub seal : Text → Text → Text → Text
  pub open_sealed : Text → Text → Text → Result Text
  pub encode : Text → Text
  pub decode : Text → Result Text

-- `copy(make([]byte, n), b)`: cut off, or filled up with zeros.
unfoldable pub fit : ℕ → Text → Text
fit zero b = []
fit (suc n) [] = 0 ∷ fit n []
fit (suc n) (x ∷ b) = x ∷ fit n b

-- The key from the environment variable, which is empty if it is not set.
unfoldable pub key_of : Text → Result Text
key_of [] = err (message (codes "TOKEN_ENCRYPT_KEY not set"))
key_of (c ∷ cs) = ok (fit 32 (c ∷ cs))

module _ (cipher : Cipher) (env : Text) where
  -- The nonce is what the random reader gives.
  unfoldable pub encrypt : Result Text → Text → Result Text
  encrypt nonce plaintext = elim (key_of env) [
    | err e ↦ err e
    | ok k ↦ elim (cipher.new_gcm k) [
      | some e ↦ err e
      | none ↦ elim nonce [
        | err e ↦ err e
        | ok n ↦ ok (cipher.encode (n ++ cipher.seal k n plaintext))
      ]
    ]
  ]

  unfoldable pub decrypt : Text → Result Text
  decrypt ciphertext = elim (key_of env) [
    | err e ↦ err e
    | ok k ↦ elim (cipher.decode ciphertext) [
      | err e ↦ err e
      | ok bytes ↦ elim (cipher.new_gcm k) [
        | some e ↦ err e
        | none ↦
            if ltb (length bytes) cipher.nonce_size
            then err (message (codes "ciphertext too short"))
            else elim (cipher.open_sealed k (take_bytes cipher.nonce_size bytes)
                (drop_bytes cipher.nonce_size bytes)) [ err e ↦ err e | ok plain ↦ ok plain ]
      ]
    ]
  ]
