-- ===== src/Crypto.antt =====
-- libs/redis_store/encryption.py over the AES-GCM of the `cryptography` package; the encodings and
-- the digest are Python's.
pub mod Tagged
mod Tests
use rdpproxy_v.Prelude.{
  ℕ, ◌+◌, ◌≡◌, ◌≢◌, refl, ap, ◌∙◌, ◌++◌, length, take, drop, take-append, drop-append, sym,
}
use rdpproxy_v.Prelude.Text.{Bytes, Text}
use rdpproxy_v.Errors.{Error, Result, ok, err, other_error, ◌>>=◌}

-- `seal` and `unseal` are AESGCM's encrypt and decrypt under the configured key, of a nonce, the
-- data and the associated data. `unseal` raises unless all three are those of the sealing.
pub record Crypto : Type 0 where
  pub seal : Bytes → Bytes → Bytes → Bytes
  pub unseal : Bytes → Bytes → Bytes → Result Bytes
  pub b64encode : Bytes → Text
  pub b64decode : Text → Bytes
  pub encode_utf8 : Text → Bytes
  pub decode_utf8 : Bytes → Result Text
  pub sha256_hex : Bytes → Text
  pub unseal-seal : (nonce p aad : Bytes) → unseal nonce (seal nonce p aad) aad ≡ ok p
  pub unseal_foreign :
      (nonce p aad aad' : Bytes)
      → aad ≢ aad'
      → unseal nonce (seal nonce p aad) aad' ≡ err other_error
  pub b64decode-b64encode : (b : Bytes) → b64decode (b64encode b) ≡ b
  pub decode-encode_utf8 : (t : Text) → decode_utf8 (encode_utf8 t) ≡ ok t

module _ (c : Crypto) where
  -- The nonce is what `secrets.token_bytes(12)` drew.
  unfoldable pub encrypt : Bytes → Text → Bytes → Text
  encrypt nonce plaintext aad = c.b64encode (nonce ++ c.seal nonce (c.encode_utf8 plaintext) aad)

  unfoldable pub decrypt : Text → Bytes → Result Text
  decrypt blob aad =
      let raw = c.b64decode blob in c.unseal (take 12 raw) (drop 12 raw) aad >>= c.decode_utf8

  decrypt_parts :
      (nonce sealed aad : Bytes)
      → length nonce ≡ 12
      → decrypt (c.b64encode (nonce ++ sealed)) aad ≡ (c.unseal nonce sealed aad >>= c.decode_utf8)
  unfolding decrypt
  decrypt_parts nonce sealed aad h =
      rw
        (
          c.b64decode-b64encode (nonce ++ sealed),
          ap (λ (n : ℕ). take n (nonce ++ sealed)) (sym h) ∙ take-append nonce sealed,
          ap (λ (n : ℕ). drop n (nonce ++ sealed)) (sym h) ∙ drop-append nonce sealed,
        )
        refl

  -- With the associated data of the encryption, and a nonce of 12 bytes, the text comes back.
  pub decrypt-encrypt :
      (nonce : Bytes) (plaintext : Text) (aad : Bytes)
      → length nonce ≡ 12
      → decrypt (encrypt nonce plaintext aad) aad ≡ ok plaintext
  unfolding encrypt
  decrypt-encrypt nonce plaintext aad h =
      decrypt_parts nonce (c.seal nonce (c.encode_utf8 plaintext) aad) aad h
      ∙ (rw (c.unseal-seal nonce (c.encode_utf8 plaintext) aad) (c.decode-encode_utf8 plaintext))

  -- With other associated data, and a nonce of 12 bytes, decryption raises.
  pub decrypt_foreign :
      (nonce : Bytes) (plaintext : Text) (aad aad' : Bytes)
      → length nonce ≡ 12
      → aad ≢ aad'
      → decrypt (encrypt nonce plaintext aad) aad' ≡ err other_error
  unfolding encrypt
  decrypt_foreign nonce plaintext aad aad' h ne =
      decrypt_parts nonce (c.seal nonce (c.encode_utf8 plaintext) aad) aad' h
      ∙ (rw (c.unseal_foreign nonce (c.encode_utf8 plaintext) aad aad' ne) refl)
