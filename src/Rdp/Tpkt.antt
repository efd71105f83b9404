-- ===== src/Rdp/Tpkt.antt =====
-- libs/rdp/tpkt.py, and the frames that credssp.py builds and reads by the same code.
pub mod Laws
use rdpproxy_v.Prelude.{
  ℕ, ◌+◌, ◌-◌, ◌<◌, ◌≡◌, refl, [], ◌∷◌, ◌++◌, length, take, drop, ltb, ◌==◌, if◌then◌else◌, arith,
  lt→ltb, le→ltb, not,
}
use rdpproxy_v.Prelude.Text.{Bytes}
use rdpproxy_v.Errors
use rdpproxy_v.Errors.{Result, ok, err, value_error, index_error, map_result}
use rdpproxy_v.Stream.{Read, pure, raise, lift, readexactly, ◌>>=◌}
use rdpproxy_v.Stream.Laws.{readexactly-append}
use rdpproxy_v.Pack.{be16, unpack_be16, pack_be16}
use rdpproxy_v.Pack.Laws.{pack_be16_lem, be16_lem}

abbrev pub tpkt_version : ℕ
tpkt_version = 3

-- struct.error if the frame does not fit its 16-bit length.
unfoldable pub build_tpkt : Bytes → Result Bytes
unfolding pack_be16
build_tpkt payload =
    map_result (λ len. (tpkt_version ∷ 0 ∷ len) ++ payload) (pack_be16 (length payload + 4))

-- `readexactly(total_len - 4)`: ValueError where the difference is negative.
unfoldable pub read_payload : ℕ → Read Bytes
unfolding readexactly
read_payload total_len = if ltb total_len 4 then raise value_error else readexactly (total_len - 4)

-- The header's first byte, and then its length.
unfoldable pub after_header : Bytes → Read Bytes
unfolding read_payload unpack_be16
after_header [] = raise index_error
after_header (v ∷ header) =
    if not (v == tpkt_version)
    then raise value_error
    else (do total_len ← lift (unpack_be16 (take 2 (drop 1 header))); read_payload total_len)

unfoldable pub read_tpkt : Bytes → Read Bytes
unfolding after_header readexactly
read_tpkt initial_data =
    if ltb (length initial_data) 4
    then (do more ← readexactly (4 - length initial_data); after_header (initial_data ++ more))
    else after_header initial_data
