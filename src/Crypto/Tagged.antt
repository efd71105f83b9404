-- ===== src/Crypto/Tagged.antt =====
-- A `Crypto` that writes the associated data before the text. It hides nothing; it shows that the
-- interface can be met, and tests run on it.
use rdpproxy_v.Prelude.{
  ◌≡◌, refl, ◌∙◌, inl, inr, Bool-cases, [], ◌∷◌, ◌++◌, length, take, drop, take-append, drop-append,
  if◌then◌else◌,
}
use rdpproxy_v.Prelude.Text.{Bytes, text_eq, text_eq_refl, text_eq_sound}
use rdpproxy_v.Errors.{Result, ok, err, other_error}
use rdpproxy_v.Crypto.{Crypto}

abbrev pub open_sealed : Bytes → Bytes → Bytes → Result Bytes
open_sealed nonce [] aad = err other_error
open_sealed nonce (n ∷ rest) aad =
    if text_eq (take n rest) aad then ok (drop n rest) else err other_error

abbrev pub seal_open : Bytes → Bytes → Bytes → Bytes
seal_open nonce p aad = length aad ∷ (aad ++ p)

pub open_sealed-seal :
    (nonce p aad aad' : Bytes)
    → open_sealed nonce (seal_open nonce p aad) aad'
      ≡ (if text_eq aad aad' then ok p else err other_error)
open_sealed-seal nonce p aad aad' = rw (take-append aad p, drop-append aad p) refl

abbrev pub tagged : Crypto
tagged = record {
  seal = seal_open;
  unseal = open_sealed;
  b64encode = λ b. b;
  b64decode = λ t. t;
  encode_utf8 = λ t. t;
  decode_utf8 = λ b. ok b;
  sha256_hex = λ b. 35 ∷ b;
  unseal-seal = λ nonce p aad. open_sealed-seal nonce p aad aad ∙ (rw (text_eq_refl aad) refl);
  unseal_foreign = λ nonce p aad aad' ne.
      open_sealed-seal nonce p aad aad' ∙ elim (Bool-cases (text_eq aad aad')) [
        | inl e ↦ absurd (ne (text_eq_sound aad aad' e))
        | inr e ↦ rw e refl
      ];
  b64decode-b64encode = λ b. refl;
  decode-encode_utf8 = λ t. refl;
}
