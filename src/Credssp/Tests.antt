-- ===== src/Credssp/Tests.antt =====
-- Runs of the handshake and of its structures.
use rdpproxy_v.Prelude.{◌≡◌, refl, some, [], ◌∷◌, ◌++◌, arith}
use rdpproxy_v.Prelude.Text.{codes}
use rdpproxy_v.Errors.{Result, ok}
use rdpproxy_v.Rdp.Tpkt.{build_tpkt}
use rdpproxy_v.Credssp.Der.{extract_raw_pubkey}
use rdpproxy_v.Credssp.Der.PubKey.{extract_raw_pubkey-spki}
use rdpproxy_v.Credssp.TsRequest.{TsRequest, from_string, get_data}
use rdpproxy_v.Credssp.TsRequest.Laws.{from_string-get_data}
use rdpproxy_v.Credssp.TsRequest.Ends.{from_string_ends}
use rdpproxy_v.Credssp.Handshake.{
  in_time, timed_out, Conn, split_domain_user, connect_and_authenticate, fresh_conn,
  extract_ntlm_from_resp,
}
use rdpproxy_v.Credssp.Handshake.Laws.{messages, connect_and_authenticate_lem}
use rdpproxy_v.Credssp.Sample.{encode, encode-IsAsn1Encode, challenge, ntlm, key_der, backend}

from_string-get_data_example :
    from_string (get_data encode challenge ++ (1 ∷ 2 ∷ [])) ≡ some (ok challenge)
from_string-get_data_example =
    from_string-get_data encode encode-IsAsn1Encode challenge (1 ∷ 2 ∷ []) (omega arith)

from_string_ends_example :
    (m : Result TsRequest) × (from_string (0x30 ∷ 4 ∷ 0xA1 ∷ 0 ∷ []) ≡ some m)
from_string_ends_example = from_string_ends (0x30 ∷ 4 ∷ 0xA1 ∷ 0 ∷ [])

sample_key : extract_raw_pubkey key_der ≡ ok (7 ∷ 8 ∷ 9 ∷ [])
sample_key =
    extract_raw_pubkey-spki encode encode-IsAsn1Encode (0x06 ∷ 1 ∷ 42 ∷ []) 0 (7 ∷ 8 ∷ 9 ∷ [])
      (omega arith)

connect_and_authenticate_lem_example :
    (c : Conn) × (connect_and_authenticate ntlm backend in_time
        (timed_out [])
        (codes "CORP\\ann")
        (codes "pw")
        []
        fresh_conn
      ≡ (ok tt, c))
    × (c.sent
        ≡ messages ntlm
            (codes "CORPann")
            (7 ∷ 8 ∷ 9 ∷ [])
            (codes "pw")
            (codes "CORP\\ann")
            (codes "pw")
            [])
unfolding split_domain_user extract_ntlm_from_resp build_tpkt
connect_and_authenticate_lem_example =
    connect_and_authenticate_lem ntlm backend (λ n. refl) encode-IsAsn1Encode challenge
      (codes "NTLMSSP" ++ (0 ∷ 2 ∷ [])) (omega arith) refl (3 ∷ 0 ∷ []) (codes "CORPann") key_der
      (7 ∷ 8 ∷ 9 ∷ []) (codes "pw") (codes "CORP\\ann") (codes "pw") [] (14 ∷ 208 ∷ [])
      (3 ∷ 0 ∷ 0 ∷ 6 ∷ 14 ∷ 208 ∷ []) [] in_time (timed_out []) (omega arith) refl refl refl refl
      refl sample_key
