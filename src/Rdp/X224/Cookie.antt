-- ===== src/Rdp/X224/Cookie.antt =====
-- The routing token of a Connection Request: what stands behind "Cookie: msts=".
use rdpproxy_v.Prelude.{
  ℕ, ◌+◌, ◌<◌, ◌≤◌, ◌≡◌, ◌≢◌, refl, ap, ◌∙◌, true, false, Option, none, some, List, [], ◌∷◌, ◌++◌,
  length, drop, All, arith,
}
use native.Mathlib.Nat.{zero-add, suc-add}
use rdpproxy_v.Prelude.Text.{Bytes, Text, codes, starts_with, starts_with-append}
use rdpproxy_v.Errors.{ok}
use rdpproxy_v.Proxy.Fields.{before_crlf}
use rdpproxy_v.Search.{find, is_space, lstrip, rstrip, strip, is_token_char, token_runs}
use rdpproxy_v.Rdp.X224.{
  until_crlf, after_marker, first_marker, first_candidate, extract_cookie_token,
}

-- The first occurrence is behind a part that does not hold the marker's first byte.
find-append :
    (c : ℕ) (m pre s : Bytes)
    → All (λ d. d ≢ c) pre
    → find (c ∷ m) (pre ++ ((c ∷ m) ++ s)) ≡ some (length pre)
unfolding find starts_with
find-append c m [] s h = rw (starts_with-append m s) (ground arith)
find-append c m (d ∷ pre) s h = ground (arith, find-append c m pre s h.1)

before_crlf-append :
    (s rest : Bytes) → All (λ c. c ≢ 13) s → before_crlf (s ++ (13 ∷ 10 ∷ rest)) ≡ some s
unfolding before_crlf
before_crlf-append [] rest h = refl
before_crlf-append (c ∷ []) rest h = ground arith
before_crlf-append (c ∷ d ∷ s) rest h = ground (arith, before_crlf-append (d ∷ s) rest h.1)

-- What `secrets.token_urlsafe` draws from: letters, digits, dash and underscore.
pub record IsToken (t : Text) : Type 0 where
  pub chars : All (λ c. is_token_char c ≡ true) t
  pub non_empty : 1 ≤ length t

token_char_range : (c : ℕ) → is_token_char c ≡ true → (33 ≤ c) × (c < 128)
token_char_range c h = ground arith

not_space : (c : ℕ) → 33 ≤ c → c < 128 → is_space c ≡ false
unfolding is_space
not_space c h k = ground arith

token_char : (c : ℕ) → is_token_char c ≡ true → (c ≢ 13) × (c < 128) × (is_space c ≡ false)
token_char c h = let (low, high) = token_char_range c h in (omega arith, high, not_space c low high)

lstrip-token : (t : Text) → All (λ c. is_token_char c ≡ true) t → lstrip t ≡ t
unfolding lstrip
lstrip-token [] h = refl
lstrip-token (c ∷ t) h = rw ((token_char c h.0).2) refl

rstrip-token : (t : Text) → All (λ c. is_token_char c ≡ true) t → rstrip t ≡ t
unfolding rstrip
rstrip-token [] h = refl
rstrip-token (c ∷ []) h = rw ((token_char c h.0).2) refl
rstrip-token (c ∷ d ∷ t) h = rw (rstrip-token (d ∷ t) h.1) refl

strip-token : (t : Text) → All (λ c. is_token_char c ≡ true) t → strip t ≡ t
unfolding strip
strip-token t h = rw (lstrip-token t h, rstrip-token t h)

token-HasNoCr : (t : Text) → All (λ c. is_token_char c ≡ true) t → All (λ c. c ≢ 13) t
token-HasNoCr [] h = tt
token-HasNoCr (c ∷ t) h = ((token_char c h.0).0, token-HasNoCr t h.1)

token-ascii : (t : Text) → All (λ c. is_token_char c ≡ true) t → All (λ c. c < 128) t
token-ascii [] h = tt
token-ascii (c ∷ t) h = ((token_char c h.0).1, token-ascii t h.1)

drop_past : (pre s : Bytes) (n : ℕ) → drop (length pre + n) (pre ++ s) ≡ drop n s
drop_past [] s n = simp zero-add
drop_past (c ∷ pre) s n = rw suc-add (drop_past pre s n)

abbrev later_markers : List Bytes
later_markers = codes "cookie: msts=" ∷ codes "Cookie: mstshash=" ∷ codes "cookie: mstshash=" ∷ []

-- Decoding leaves ASCII alone.
module _ (decode_utf8_ignore : Bytes → Text)
    (decode_ascii : (s : Bytes) → All (λ c. c < 128) s → decode_utf8_ignore s ≡ s) where
  after_marker_found :
      (m p t : Bytes) (i : ℕ)
      → find m p ≡ some i
      → before_crlf (drop (i + length m) p) ≡ some t
      → decode_utf8_ignore t ≡ t
      → strip t ≡ t
      → 1 ≤ length t
      → after_marker decode_utf8_ignore m p ≡ some t
  unfolding after_marker
  after_marker_found m p [] i f b d s l = absurd (omega arith)
  after_marker_found m p (c ∷ t) i f b d s l =
      rw (f, after_marker) (rw (b, until_crlf) (rw (d, s) refl))

  after_marker_lem :
      (header t rest : Bytes)
      → All (λ d. d ≢ 67) header
      → IsToken t
      → after_marker decode_utf8_ignore
          (codes "Cookie: msts=")
          (header ++ (codes "Cookie: msts=" ++ (t ++ (13 ∷ 10 ∷ rest))))
        ≡ some t
  after_marker_lem header t rest hh ht =
      let line = t ++ (13 ∷ 10 ∷ rest) in
      after_marker_found (codes "Cookie: msts=") (header ++ (codes "Cookie: msts=" ++ line)) t
        (length header) (find-append 67 (codes "ookie: msts=") header line hh)
        (ap before_crlf (drop_past header (codes "Cookie: msts=" ++ line) 13)
          ∙ before_crlf-append t rest (token-HasNoCr t ht.chars))
        (decode_ascii t (token-ascii t ht.chars)) (strip-token t ht.chars) ht.non_empty

  -- A request whose header (the bytes before the cookie) does not hold the letter C, with the
  -- cookie "Cookie: msts=" and a token of URL-safe characters up to CR LF: that token is extracted,
  -- whatever follows.
  pub extract_cookie_token_lem :
      (header t rest : Bytes)
      → All (λ d. d ≢ 67) header
      → IsToken t
      → extract_cookie_token decode_utf8_ignore
          (header ++ (codes "Cookie: msts=" ++ (t ++ (13 ∷ 10 ∷ rest))))
        ≡ ok t
  unfolding extract_cookie_token first_marker
  extract_cookie_token_lem header t rest hh ht =
      let p = header ++ (codes "Cookie: msts=" ++ (t ++ (13 ∷ 10 ∷ rest))) in
      let others =
        first_marker decode_utf8_ignore ok (first_candidate decode_utf8_ignore (token_runs [] p))
          later_markers p in
      ap (λ (o : Option Text). elim o [ none ↦ others | some token ↦ ok token ])
        (after_marker_lem header t rest hh ht)
