-- ===== src/Pack/Laws.antt =====
-- Unpacking what was packed.
use rdpproxy_v.Prelude.{ℕ, ◌/◌, ◌%◌, ◌^◌, ◌<◌, ◌≡◌, [], ◌∷◌, arith, lt→ltb}
use rdpproxy_v.Errors.{ok}
use rdpproxy_v.Pack.{be16, le32, pack_be16, pack_le32}

pub pack_be16_lem : (n : ℕ) → n < 65536 → pack_be16 n ≡ ok (n / 256 ∷ n % 256 ∷ [])
unfolding pack_be16
pack_be16_lem n h = rw (lt→ltb n 65536 h)

pub be16_lem : (n : ℕ) → n < 65536 → be16 (n / 256) (n % 256) ≡ n
be16_lem n h = omega arith

pub pack_le32_lem :
    (n : ℕ)
    → n < 2 ^ 32
    → pack_le32 n ≡ ok (n % 256 ∷ n / 256 % 256 ∷ n / 65536 % 256 ∷ n / 16777216 ∷ [])
unfolding pack_le32
pack_le32_lem n h = rw (lt→ltb n (2 ^ 32) h)

pub le32_lem :
    (n : ℕ) → n < 2 ^ 32 → le32 (n % 256) (n / 256 % 256) (n / 65536 % 256) (n / 16777216) ≡ n
le32_lem n h = omega arith
