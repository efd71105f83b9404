-- ===== src/Rdp/X224.antt =====
-- libs/rdp/x224.py: the X.224 Connection Request and Confirm. Decoding and encoding UTF-8 and the
-- digest are Python's; they are parameters of what uses them.
pub mod Negotiation
pub mod Cookie
use rdpproxy_v.Prelude.{
  ℕ, suc, ◌+◌, Bool, true, false, ◌&&◌, ◌||◌, Option, none, some, List, [], ◌∷◌, ◌++◌, length, drop,
  leb, ◌==◌, if◌then◌else◌,
}
use rdpproxy_v.Prelude.Text.{Bytes, Text, codes, non_empty}
use rdpproxy_v.Errors.{Result, ok, err, value_error, ◌>>=◌}
use rdpproxy_v.Pack.{pack_le32, unpack_le32_at}
use rdpproxy_v.Rdp.Tpkt.{build_tpkt}
use rdpproxy_v.Search.{find, strip, token_runs, any_char, is_digit_char, is_alpha_char, replace}
use rdpproxy_v.Proxy.Fields.{before_crlf}

abbrev pub protocol_ssl : ℕ
protocol_ssl = 1

abbrev pub protocol_hybrid : ℕ
protocol_hybrid = 2

abbrev pub requested_protocols_hybrid : ℕ
requested_protocols_hybrid = 3

-- build_x224_cr, and _build_x224_cr of credssp.py
unfoldable pub build_x224_cr : ℕ → Result Bytes
unfolding pack_le32 build_tpkt
build_x224_cr requested_protocols = pack_le32 requested_protocols >>= λ flags.
    build_tpkt ((0x0E ∷ 0xE0 ∷ 0 ∷ 0 ∷ 0 ∷ 0 ∷ 0 ∷ []) ++ ((1 ∷ 0 ∷ 8 ∷ 0 ∷ []) ++ flags))

unfoldable pub build_x224_cc_ssl : Result Bytes
unfolding pack_le32 build_tpkt
build_x224_cc_ssl = pack_le32 protocol_ssl >>= λ flags.
    build_tpkt ((0x0E ∷ 0xD0 ∷ 0 ∷ 0 ∷ 0x12 ∷ 0x34 ∷ 0 ∷ []) ++ ((2 ∷ 0 ∷ 8 ∷ 0 ∷ []) ++ flags))

-- data[start:end], up to the next CR LF or to the end.
unfoldable pub until_crlf : Bytes → Bytes
unfolding before_crlf
until_crlf s = elim (before_crlf s) [ none ↦ s | some line ↦ line ]

abbrev pub token_markers : List Bytes
token_markers =
    codes "Cookie: msts="
    ∷ codes "cookie: msts="
    ∷ codes "Cookie: mstshash="
    ∷ codes "cookie: mstshash="
    ∷ []

abbrev pub hint_markers : List Bytes
hint_markers = codes "Cookie: mstshash=" ∷ codes "cookie: mstshash=" ∷ []

-- The two tests on a candidate of the fallback search.
unfoldable pub looks_like_token : Text → Bool
unfolding any_char
looks_like_token t =
    any_char (λ c. c == 45) t
    || any_char (λ c. c == 95) t
    || (leb 32 (length t) && any_char is_digit_char t && any_char is_alpha_char t)

-- The flags field of the RDP Negotiation Request, where there is one.
unfoldable pub extract_requested_protocols : Bytes → Result ℕ
unfolding find unpack_le32_at
extract_requested_protocols payload = elim (find (1 ∷ 0 ∷ 8 ∷ 0 ∷ []) payload) [
  | none ↦ ok requested_protocols_hybrid
  | some marker ↦
      if leb (marker + 8) (length payload)
      then unpack_le32_at payload (marker + 4)
      else ok requested_protocols_hybrid
]

module _ (decode_utf8_ignore : Bytes → Text) where
  -- What stands behind a marker; `none` goes on to the next marker.
  unfoldable pub after_marker : Bytes → Bytes → Option Text
  unfolding find until_crlf strip
  after_marker marker payload = elim (find marker payload) [
    | none ↦ none
    | some start ↦
        (let token =
            strip (decode_utf8_ignore (until_crlf (drop (start + length marker) payload))) in
          if non_empty token then some token else none)
  ]

  -- The loop over the markers, with what follows it.
  unfoldable pub first_marker {ℓ} : {A : Type ℓ} → (Text → A) → A → List Bytes → Bytes → A
  unfolding after_marker
  first_marker found fallback [] payload = fallback
  first_marker found fallback (m ∷ markers) payload =
      let rest = first_marker found fallback markers payload in
      elim (after_marker m payload) [ none ↦ rest | some token ↦ found token ]

  -- The loop over the candidates.
  unfoldable pub first_candidate : List Bytes → Result Text
  unfolding looks_like_token
  first_candidate [] = err value_error
  first_candidate (c ∷ cs) =
      let rest = first_candidate cs in
      let token = decode_utf8_ignore c in if looks_like_token token then ok token else rest

  unfoldable pub extract_cookie_token : Bytes → Result Text
  unfolding first_marker first_candidate token_runs
  extract_cookie_token payload =
      first_marker ok (first_candidate (token_runs [] payload)) token_markers payload

  unfoldable pub extract_rdp_client_hint : Bytes → Text
  unfolding first_marker
  extract_rdp_client_hint payload = first_marker (λ value. value) [] hint_markers payload

  -- f"{hint}|{sha256(redacted)}"
  unfoldable pub build_rdp_client_fingerprint :
      (encode_utf8 : Text → Bytes) (sha256_hex : Bytes → Text) → Bytes → Text → Text
  unfolding extract_rdp_client_hint replace
  build_rdp_client_fingerprint encode_utf8 sha256_hex payload token =
      extract_rdp_client_hint payload
      ++ (codes "|" ++ sha256_hex (replace (encode_utf8 token) (codes "<TOKEN>") payload))
