-- ===== src/Proxy/Tests.antt =====
-- Headers of both versions, and the first bytes of an RDP client behind them.
use rdpproxy_v.Prelude.{
  ◌≤◌, ◌≡◌, ◌*◌, ◌+◌, refl, arith, [], ◌∷◌, ◌++◌, length, not, ◌==◌, if◌then◌else◌,
}
use rdpproxy_v.Prelude.Text.{Bytes, Text, codes}
use rdpproxy_v.Errors.{ok, err, value_error}
use rdpproxy_v.Proxy.{read_proxy_protocol, by_family, local_info, info_of, dotted}
use rdpproxy_v.Proxy.Numerals.{decimal}
use rdpproxy_v.Proxy.V2.{v2_frame, inet_body, read_proxy_protocol-inet, read_proxy_protocol-local}
use rdpproxy_v.Proxy.V1.{v1_line, v1_info, read_proxy_protocol-v1_line}
use rdpproxy_v.Proxy.V1.Line.{IsWord}

abbrev hexless : Bytes → Text
hexless b = []

abbrev client_bytes : Bytes
client_bytes = 3 ∷ 0 ∷ []

read_proxy_protocol-inet_example :
    read_proxy_protocol hexless (
      v2_frame 0x21 0x11 (inet_body (10 ∷ 0 ∷ 0 ∷ 7 ∷ []) (10 ∷ 0 ∷ 0 ∷ 1 ∷ []) 50000 3389 (4 ∷ []))
      ++ client_bytes)
    ≡ (
      ok (info_of (dotted (10 ∷ 0 ∷ 0 ∷ 7 ∷ [])) (dotted (10 ∷ 0 ∷ 0 ∷ 1 ∷ [])) (50000, 3389)),
      client_bytes,
    )
read_proxy_protocol-inet_example =
    read_proxy_protocol-inet hexless 10 0 0 7 10 0 0 1 50000 3389 (4 ∷ []) client_bytes
      (omega arith) (omega arith) (omega arith)

read_proxy_protocol-local_example :
    read_proxy_protocol hexless (v2_frame (2 * 16 + 0) 0 (9 ∷ []) ++ client_bytes) ≡ (
      if not (2 == 2)
          then err value_error
          else if 0 == 0
          then ok local_info
          else by_family hexless 0 (9 ∷ []),
      client_bytes,
    )
read_proxy_protocol-local_example =
    read_proxy_protocol-local hexless 2 0 0 (9 ∷ []) client_bytes (omega arith) (omega arith)
      (omega arith)

tcp4-IsWord : IsWord (codes "TCP4")
tcp4-IsWord = record {
  graphic = ((refl, refl), ((refl, refl), ((refl, refl), ((refl, refl), tt))));
  non_empty = omega arith;
}

one-IsWord : IsWord (codes "1")
one-IsWord = record { graphic = ((refl, refl), tt); non_empty = omega arith }

two-IsWord : IsWord (codes "2")
two-IsWord = record { graphic = ((refl, refl), tt); non_empty = omega arith }

short_line : length (v1_line (codes "TCP4") (codes "1") (codes "2") 80 9) ≤ 510
unfolding decimal
short_line = omega arith

read_proxy_protocol-v1_line_example :
    read_proxy_protocol hexless
      (v1_line (codes "TCP4") (codes "1") (codes "2") 80 9 ++ (13 ∷ 10 ∷ client_bytes))
    ≡ (ok (v1_info (codes "1") (codes "2") 80 9), client_bytes)
read_proxy_protocol-v1_line_example =
    read_proxy_protocol-v1_line (codes "TCP4") (codes "1") (codes "2") 80 9 tcp4-IsWord one-IsWord
      two-IsWord hexless client_bytes short_line
