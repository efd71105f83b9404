-- ===== src/Rdp/X224/Negotiation.antt =====
-- The protocol flags of a Connection Request survive framing and search.
use rdpproxy_v.Prelude.{ℕ, ◌/◌, ◌%◌, ◌^◌, ◌<◌, ◌≡◌, refl, [], ◌∷◌, ◌++◌, arith}
use rdpproxy_v.Prelude.Text.{Bytes}
use rdpproxy_v.Errors.{ok}
use rdpproxy_v.Pack.Laws.{pack_le32_lem, le32_lem}
use rdpproxy_v.Rdp.Tpkt.{build_tpkt, read_tpkt}
use rdpproxy_v.Rdp.Tpkt.Laws.{read_tpkt-build_tpkt}
use rdpproxy_v.Rdp.X224.{build_x224_cr, extract_requested_protocols}

abbrev request : ℕ → Bytes
request n =
    0x0E
    ∷ 0xE0
    ∷ 0
    ∷ 0
    ∷ 0
    ∷ 0
    ∷ 0
    ∷ 1
    ∷ 0
    ∷ 8
    ∷ 0
    ∷ n % 256
    ∷ n / 256 % 256
    ∷ n / 65536 % 256
    ∷ n / 16777216
    ∷ []

request_flags : (n : ℕ) → n < 2 ^ 32 → extract_requested_protocols (request n) ≡ ok n
unfolding extract_requested_protocols
request_flags n h = rw (le32_lem n h) refl

build_x224_cr_lem : (n : ℕ) → n < 2 ^ 32 → build_x224_cr n ≡ build_tpkt (request n)
unfolding build_x224_cr
build_x224_cr_lem n h = rw (pack_le32_lem n h) refl

-- The flags that go into a Connection Request, any 32-bit number, are the flags that come out of
-- the frame at the other end: the frame reads as a payload, and the payload has the flags.
pub extract-build_x224_cr :
    (n : ℕ) (rest : Bytes)
    → n < 2 ^ 32
    → (frame payload : Bytes) × (build_x224_cr n ≡ ok frame)
      × (read_tpkt [] (frame ++ rest) ≡ (ok payload, rest))
      × (extract_requested_protocols payload ≡ ok n)
extract-build_x224_cr n rest h =
    let (frame, built, read) = read_tpkt-build_tpkt (request n) rest (omega arith) in
    (frame, request n, rw (build_x224_cr_lem n h) built, read, request_flags n h)
