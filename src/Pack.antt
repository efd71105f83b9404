-- ===== src/Pack.antt =====
-- The formats of the `struct` module that the code uses. `unpack` wants exactly the bytes of its
-- format and `pack` a value in range; both raise struct.error otherwise.
pub mod Laws
use rdpproxy_v.Prelude.{
  ℕ, ◌+◌, ◌*◌, ◌/◌, ◌%◌, ◌^◌, [], ◌∷◌, length, take, drop, ltb, leb, if◌then◌else◌,
}
use rdpproxy_v.Prelude.Text.{Bytes}
use rdpproxy_v.Errors.{Result, ok, err, struct_error}

abbrev pub be16 : ℕ → ℕ → ℕ
be16 a b = a * 256 + b

abbrev pub le32 : ℕ → ℕ → ℕ → ℕ → ℕ
le32 a b c d = a + b * 256 + c * 65536 + d * 16777216

-- struct.unpack("!H", b), struct.unpack(">H", b)
unfoldable pub unpack_be16 : Bytes → Result ℕ
unpack_be16 (a ∷ b ∷ []) = ok (be16 a b)
unpack_be16 _ = err struct_error

-- struct.unpack("!HH", b)
unfoldable pub unpack_be16_pair : Bytes → Result (ℕ × ℕ)
unpack_be16_pair (a ∷ b ∷ c ∷ d ∷ []) = ok (be16 a b, be16 c d)
unpack_be16_pair _ = err struct_error

-- struct.pack(">H", n)
unfoldable pub pack_be16 : ℕ → Result Bytes
pack_be16 n = if ltb n 65536 then ok (n / 256 ∷ n % 256 ∷ []) else err struct_error

-- struct.pack("<I", n)
unfoldable pub pack_le32 : ℕ → Result Bytes
pack_le32 n =
    if ltb n (2 ^ 32)
    then ok (n % 256 ∷ n / 256 % 256 ∷ n / 65536 % 256 ∷ n / 16777216 ∷ [])
    else err struct_error

abbrev le16_front : Bytes → Result ℕ
le16_front (a ∷ b ∷ _) = ok (a + b * 256)
le16_front _ = err struct_error

abbrev le32_front : Bytes → Result ℕ
le32_front (a ∷ b ∷ c ∷ d ∷ _) = ok (le32 a b c d)
le32_front _ = err struct_error

-- struct.unpack_from("<H", b, off), struct.unpack_from("<I", b, off)
unfoldable pub unpack_le16_at : Bytes → ℕ → Result ℕ
unpack_le16_at b off = le16_front (drop off b)

unfoldable pub unpack_le32_at : Bytes → ℕ → Result ℕ
unpack_le32_at b off = le32_front (drop off b)
