-- ===== src/Rdp/Tpkt/Laws.antt =====
-- Frames are read back as they were built.
use rdpproxy_v.Prelude.{
  ℕ, ◌+◌, ◌-◌, ◌/◌, ◌%◌, ◌<◌, ◌≤◌, ◌≡◌, refl, [], ◌∷◌, ◌++◌, length, arith, le→ltb,
}
use rdpproxy_v.Prelude.Text.{Bytes}
use rdpproxy_v.Errors.{ok, err, struct_error}
use rdpproxy_v.Stream.Laws.{readexactly-append}
use rdpproxy_v.Pack.{unpack_be16, pack_be16}
use rdpproxy_v.Pack.Laws.{pack_be16_lem, be16_lem}
use rdpproxy_v.Rdp.Tpkt.{build_tpkt, read_payload, after_header, read_tpkt}

pub build_tpkt_lem :
    (payload : Bytes)
    → length payload + 4 < 65536
    → let n = length payload + 4 in build_tpkt payload ≡ ok (3 ∷ 0 ∷ n / 256 ∷ n % 256 ∷ payload)
unfolding build_tpkt
build_tpkt_lem payload h = rw (pack_be16_lem (length payload + 4) h) refl

read_payload_lem :
    (n : ℕ) (payload rest : Bytes)
    → n ≡ length payload + 4
    → read_payload n (payload ++ rest) ≡ (ok payload, rest)
unfolding read_payload
read_payload_lem n payload rest e =
    rw (le→ltb n 4 (omega arith)) (readexactly-append payload rest (n - 4) (omega arith))

after_header_lem :
    (n : ℕ) (payload rest : Bytes)
    → n ≡ length payload + 4
    → n < 65536
    → after_header (3 ∷ 0 ∷ n / 256 ∷ n % 256 ∷ []) (payload ++ rest) ≡ (ok payload, rest)
unfolding after_header unpack_be16
after_header_lem n payload rest e h = rw (be16_lem n h) (read_payload_lem n payload rest e)

-- A payload of at most 65531 bytes has a frame, which is read back as the payload; the bytes
-- behind the frame stay on the stream.
pub read_tpkt-build_tpkt :
    (payload rest : Bytes)
    → length payload < 65532
    → (frame : Bytes) × (build_tpkt payload ≡ ok frame)
      × (read_tpkt [] (frame ++ rest) ≡ (ok payload, rest))
read_tpkt-build_tpkt payload rest h =
    let n = length payload + 4 in
    let fits : n < 65536 = omega arith in
    (
      3 ∷ 0 ∷ n / 256 ∷ n % 256 ∷ payload,
      build_tpkt_lem payload fits,
      unfold read_tpkt in
          rw (readexactly-append (3 ∷ 0 ∷ n / 256 ∷ n % 256 ∷ []) (payload ++ rest) 4 refl)
            (after_header_lem n payload rest refl fits),
    )

-- A larger payload is refused by the builder, with struct.error.
pub build_tpkt_large :
    (payload : Bytes) → 65532 ≤ length payload → build_tpkt payload ≡ err struct_error
unfolding build_tpkt pack_be16
build_tpkt_large payload h = rw (le→ltb (length payload + 4) 65536 (omega arith)) refl
