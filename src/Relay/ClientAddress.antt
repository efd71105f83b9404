-- ===== src/Relay/ClientAddress.antt =====
-- services/rdp_relay/handler.py: whose address a connection counts under. Python's `ipaddress` is a
-- parameter: an address that a text denotes, and whether it lies in a network (`none` where
-- the text denotes no network).
use rdpproxy_v.Prelude.{
  ℕ, ◌<◌, ◌≡◌, ◌≢◌, refl, ap, Bool, true, false, ◌&&◌, Option, none, some, List, [], ◌∷◌, ◌++◌,
  length, All, if◌then◌else◌, Bool-cases, inl, inr,
}
use rdpproxy_v.Prelude.Text.{Bytes, Text, codes}
use rdpproxy_v.Errors.{Result, ok, err}
use rdpproxy_v.Proxy.{ProxyInfo, read_proxy_protocol, dotted}
use rdpproxy_v.Proxy.V2.{v2_frame, inet_body, read_proxy_protocol-inet}

-- What the handler reads of the configuration.
pub record RelayConfig : Type 0 where
  pub proxy_protocol : Bool
  pub trusted_proxies : List Text

module _ {Address : Type 0} (ip_address : Text → Option Address)
    (in_network : Address → Text → Option Bool) where
  -- A text that is no network is passed over.
  unfoldable pub in_any : Address → List Text → Bool
  in_any addr [] = false
  in_any addr (net ∷ nets) =
      let rest = in_any addr nets in elim (in_network addr net) [ some true ↦ true | _ ↦ rest ]

  unfoldable pub is_trusted_proxy : RelayConfig → Text → Bool
  unfolding in_any
  is_trusted_proxy cfg ip = elim (ip_address ip) [
    | none ↦ false
    | some addr ↦ in_any addr cfg.trusted_proxies
  ]

  none_holds :
      (addr : Address) (nets : List Text)
      → All (λ net. in_network addr net ≢ some true) nets
      → in_any addr nets ≡ false
  unfolding in_any
  none_holds addr [] h = refl
  none_holds addr (net ∷ nets) h = at (in_network addr net) refl (none_holds addr nets h.1)
    where
      at :
          (o : Option Bool)
          → in_network addr net ≡ o
          → in_any addr nets ≡ false
          → (elim o as (λ _. Bool) [ some true ↦ true | _ ↦ in_any addr nets ]) ≡ false
      at none e rest = rest
      at (some false) e rest = rest
      at (some true) e rest = absurd (h.0 e)

  untrusted :
      (cfg : RelayConfig) (ip : Text)
      → ((addr : Address)
          → ip_address ip ≡ some addr
          → All (λ net. in_network addr net ≢ some true) cfg.trusted_proxies)
      → is_trusted_proxy cfg ip ≡ false
  unfolding is_trusted_proxy
  untrusted cfg ip outside = at (ip_address ip) refl
    where
      at :
          (o : Option Address)
          → ip_address ip ≡ o
          → (elim o as (λ _. Bool) [ none ↦ false | some addr ↦ in_any addr cfg.trusted_proxies ])
            ≡ false
      at none e = refl
      at (some addr) e = none_holds addr cfg.trusted_proxies (outside addr e)

  abbrev pub peer_ip : Option Text → Text
  peer_ip none = codes "unknown"
  peer_ip (some ip) = ip

  -- `except Exception`: the peer's address, with the stream where the parser left it.
  abbrev pub or_peer : Text → Result ProxyInfo × Bytes → Text × Bytes
  or_peer ip (ok info, rest) = (info.src_addr, rest)
  or_peer ip (err e, rest) = (ip, rest)

  module _ (ipv6_text : Bytes → Text) where
    -- From the bytes of the stream to the address and the bytes left.
    unfoldable pub resolve_client_ip : RelayConfig → Option Text → Bytes → Text × Bytes
    unfolding is_trusted_proxy
    resolve_client_ip cfg peer stream =
        if cfg.proxy_protocol && is_trusted_proxy cfg (peer_ip peer)
        then or_peer (peer_ip peer) (read_proxy_protocol ipv6_text stream)
        else (peer_ip peer, stream)

    -- A peer whose text denotes no address, or an address in none of the networks, counts under its
    -- own text, whatever it sends, and none of its bytes are read.
    pub resolve_client_ip_untrusted :
        (cfg : RelayConfig) (peer : Option Text) (stream : Bytes)
        → ((addr : Address)
            → ip_address (peer_ip peer) ≡ some addr
            → All (λ net. in_network addr net ≢ some true) cfg.trusted_proxies)
        → resolve_client_ip cfg peer stream ≡ (peer_ip peer, stream)
    unfolding resolve_client_ip
    resolve_client_ip_untrusted cfg peer stream outside = elim (Bool-cases cfg.proxy_protocol) [
      | inl e ↦ rw (e, untrusted cfg (peer_ip peer) outside) refl
      | inr e ↦ rw e refl
    ]

    -- Behind a trusted proxy with the PROXY protocol on, an IPv4 header of version 2 gives the
    -- client's address, and what the client sends stays on the stream.
    pub resolve_client_ip-inet :
        (cfg : RelayConfig) (peer : Option Text) (s0 s1 s2 s3 d0 d1 d2 d3 sport dport : ℕ)
        (tlvs client_bytes : Bytes)
        → cfg.proxy_protocol ≡ true
        → is_trusted_proxy cfg (peer_ip peer) ≡ true
        → sport < 65536
        → dport < 65536
        → length tlvs < 65000
        → let src = s0 ∷ s1 ∷ s2 ∷ s3 ∷ [] in
          let dst = d0 ∷ d1 ∷ d2 ∷ d3 ∷ [] in
          resolve_client_ip cfg peer
            (v2_frame 0x21 0x11 (inet_body src dst sport dport tlvs) ++ client_bytes)
          ≡ (dotted src, client_bytes)
    unfolding resolve_client_ip
    resolve_client_ip-inet cfg peer s0 s1 s2 s3 d0 d1 d2 d3 sport dport tlvs client_bytes on trusted
          hs hd ht =
        rw (on, trusted)
          (ap (or_peer (peer_ip peer)) (
            read_proxy_protocol-inet ipv6_text s0 s1 s2 s3 d0 d1 d2 d3 sport dport tlvs client_bytes
              hs hd ht))
