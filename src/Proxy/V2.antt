-- ===== src/Proxy/V2.antt =====
-- Version 2 headers as the PROXY protocol describes them, and what the parser makes of them.
use rdpproxy_v.Prelude.{
  ℕ, suc, false, le→ltb, ◌+◌, ◌/◌, ◌%◌, ◌*◌, not, ◌<◌, ◌≡◌, refl, [], ◌∷◌, ◌++◌, length, arith, ltb,
  if◌then◌else◌, ◌==◌,
}
use rdpproxy_v.Prelude.Text.{Bytes, Text, text_eq}
use rdpproxy_v.Errors.{ok, err, value_error}
use rdpproxy_v.Stream.Laws.{readexactly-append}
use rdpproxy_v.Pack.{unpack_be16_pair}
use rdpproxy_v.Pack.Laws.{be16_lem}
use rdpproxy_v.Proxy.{
  pp_v2_signature, info_of, local_info, dotted, inet, by_family, decode_v2, v2_body, parse_v2,
  read_proxy_protocol,
}

-- A header: the signature, the version and command, the family and protocol, the length of the
-- rest in network order, and the rest.
abbrev pub v2_frame : ℕ → ℕ → Bytes → Bytes
v2_frame ver_cmd family body =
    pp_v2_signature ++ (ver_cmd ∷ family ∷ length body / 256 ∷ length body % 256 ∷ body)

-- The 12 bytes of a TCP connection over IPv4, and the TLVs that may follow them.
abbrev pub inet_body : Bytes → Bytes → ℕ → ℕ → Bytes → Bytes
inet_body src dst sport dport tlvs =
    src ++ (dst ++ (sport / 256 ∷ sport % 256 ∷ dport / 256 ∷ dport % 256 ∷ tlvs))

long :
    (n : ℕ)
    → ltb (suc (suc (suc (suc (suc (suc (suc (suc (suc (suc (suc (suc n)))))))))))) 12 ≡ false
long n = le→ltb _ 12 (omega arith)

module _ (ipv6_text : Bytes → Text) where
  v2_body_lem :
      (ver_cmd family : ℕ) (body rest : Bytes) (n : ℕ)
      → n ≡ length body
      → n < 65536
      → v2_body ipv6_text (ver_cmd ∷ family ∷ n / 256 ∷ n % 256 ∷ []) (body ++ rest)
        ≡ (decode_v2 ipv6_text ver_cmd family body, rest)
  unfolding v2_body
  v2_body_lem ver_cmd family body rest n e h =
      rw (be16_lem n h) (rw (readexactly-append body rest n e) refl)

  -- Whatever the version, the command, the family and the body of a header: the parser takes
  -- exactly the bytes of the header off the stream, and answers with its checks on those bytes.
  pub read_proxy_protocol-v2_frame :
      (ver_cmd family : ℕ) (body rest : Bytes)
      → length body < 65536
      → read_proxy_protocol ipv6_text (v2_frame ver_cmd family body ++ rest)
        ≡ (decode_v2 ipv6_text ver_cmd family body, rest)
  unfolding read_proxy_protocol parse_v2 text_eq
  read_proxy_protocol-v2_frame ver_cmd family body rest h =
      let n = length body in
      rw
        (readexactly-append (pp_v2_signature ++ (ver_cmd ∷ []))
          (family ∷ n / 256 ∷ n % 256 ∷ (body ++ rest)) 13 refl)
        (rw (readexactly-append (family ∷ n / 256 ∷ n % 256 ∷ []) (body ++ rest) 3 refl)
          (v2_body_lem ver_cmd family body rest n refl h))

  -- An IPv4 header of version 2 (command PROXY, TCP over AF_INET, 0x21 and 0x11) carries its
  -- addresses in dotted form and its ports through the parser, whatever TLVs follow them, and
  -- the bytes behind the header stay on the stream.
  pub read_proxy_protocol-inet :
      (s0 s1 s2 s3 d0 d1 d2 d3 sport dport : ℕ) (tlvs rest : Bytes)
      → sport < 65536
      → dport < 65536
      → length tlvs < 65000
      → let src = s0 ∷ s1 ∷ s2 ∷ s3 ∷ [] in
        let dst = d0 ∷ d1 ∷ d2 ∷ d3 ∷ [] in
        read_proxy_protocol ipv6_text
          (v2_frame 0x21 0x11 (inet_body src dst sport dport tlvs) ++ rest)
        ≡ (ok (info_of (dotted src) (dotted dst) (sport, dport)), rest)
  unfolding decode_v2 inet unpack_be16_pair
  read_proxy_protocol-inet s0 s1 s2 s3 d0 d1 d2 d3 sport dport tlvs rest hs hd ht =
      let src = s0 ∷ s1 ∷ s2 ∷ s3 ∷ [] in
      let dst = d0 ∷ d1 ∷ d2 ∷ d3 ∷ [] in
      rw
        (read_proxy_protocol-v2_frame 0x21 0x11 (inet_body src dst sport dport tlvs) rest
          (omega arith))
        (rw (be16_lem sport hs, be16_lem dport hd) (rw (long (length tlvs)) refl))

  -- A version other than 2 is refused. In version 2 the LOCAL command (a health check of the proxy)
  -- names no client, whatever the header holds, and the other commands go by the address family.
  pub read_proxy_protocol-local :
      (version command family : ℕ) (body rest : Bytes)
      → command < 16
      → version < 16
      → length body < 65536
      → read_proxy_protocol ipv6_text (v2_frame (version * 16 + command) family body ++ rest) ≡ (
        if not (version == 2)
            then err value_error
            else if command == 0
            then ok local_info
            else by_family ipv6_text family body,
        rest,
      )
  unfolding decode_v2
  read_proxy_protocol-local version command family body rest hc hv h =
      rw (read_proxy_protocol-v2_frame (version * 16 + command) family body rest h) (
        let e : (version * 16 + command) / 16 % 16 ≡ version = omega arith in
        let f : (version * 16 + command) % 16 ≡ command = omega arith in rw (e, f) refl)
