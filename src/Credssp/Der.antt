-- ===== src/Credssp/Der.antt =====
-- The DER of credssp.py: a length in front of its content.
pub mod Laws
pub mod PubKey
use rdpproxy_v.Prelude.{
  ℕ, suc, ◌+◌, ◌*◌, ◌/◌, ◌%◌, ◌<◌, ◌≤◌, ◌≡◌, Bool, List, [], ◌∷◌, ◌++◌, length, take, drop, ◌==◌,
  if◌then◌else◌,
}
use rdpproxy_v.Prelude.Text.{Bytes}
use rdpproxy_v.Errors.{Result, ok, err, value_error, index_error, ◌>>=◌}

abbrev pub from_be : ℕ → Bytes → ℕ
from_be n [] = n
from_be n (b ∷ bs) = from_be (n * 256 + b) bs

-- int.from_bytes(b, "big")
abbrev pub int_of_bytes : Bytes → ℕ
int_of_bytes b = from_be 0 b

-- `b & 0x80` as a truth value, and `b & 0x7F`.
abbrev pub is_long : ℕ → Bool
is_long b = b / 128 % 2 == 1

abbrev pub low_bits : ℕ → ℕ
low_bits b = b % 128

-- _asn1decode
unfoldable pub asn1decode : Bytes → Bytes × ℕ
asn1decode [] = ([], 0)
asn1decode (b ∷ rest) =
    if is_long b
    then (
      take (int_of_bytes (take (low_bits b) rest)) (drop (low_bits b) rest),
      1 + low_bits b + int_of_bytes (take (low_bits b) rest),
    )
    else (take b rest, 1 + b)

-- What impacket's `asn1encode` does with less than 65536 bytes.
pub record IsAsn1Encode (asn1encode : Bytes → Bytes) : Type 0 where
  pub short : (d : Bytes) → length d < 128 → asn1encode d ≡ length d ∷ d
  pub one_byte : (d : Bytes) → 128 ≤ length d → length d < 256 → asn1encode d ≡ 0x81 ∷ length d ∷ d
  pub two_bytes :
      (d : Bytes)
      → 256 ≤ length d
      → length d < 65536
      → asn1encode d ≡ 0x82 ∷ length d / 256 ∷ length d % 256 ∷ d

-- data[i]
unfoldable pub byte_at : Bytes → ℕ → Result ℕ
byte_at s i = elim (drop i s) [ [] ↦ err index_error | b ∷ _ ↦ ok b ]

-- The tag at an offset, or ValueError.
unfoldable pub expect_tag : ℕ → Bytes → ℕ → Result (Unit {0})
unfolding byte_at
expect_tag tag s offset = byte_at s offset >>= λ b. if b == tag then ok tt else err value_error

-- Behind the length field at an offset, by its first byte; the length itself is not used.
unfoldable pub skip_length : Bytes → ℕ → Result ℕ
unfolding byte_at
skip_length s offset =
    byte_at s offset >>= λ b. ok (if is_long b then offset + 1 + low_bits b else offset + 1)

-- Behind the AlgorithmIdentifier, whose tag stands at the offset.
unfoldable pub skip_algorithm : Bytes → ℕ → Result ℕ
unfolding byte_at
skip_algorithm s offset = byte_at s (offset + 1) >>= λ b. ok (
    if is_long b
    then offset + (2 + low_bits b + int_of_bytes (take (low_bits b) (drop (offset + 2) s)))
    else offset + (2 + b))

-- _extract_raw_pubkey
unfoldable pub extract_raw_pubkey : Bytes → Result Bytes
unfolding expect_tag skip_length skip_algorithm
extract_raw_pubkey [] = err value_error
extract_raw_pubkey (t ∷ spki) =
    let s = t ∷ spki in
    if t == 0x30
    then (skip_length s 1 >>= λ algorithm. expect_tag 0x30 s algorithm >>= λ _.
        skip_algorithm s algorithm >>= λ bits. expect_tag 0x03 s bits >>= λ _.
        skip_length s (bits + 1) >>= λ unused. ok (drop (unused + 1) s))
    else err value_error
