-- ===== src/Sessions/Tokens.antt =====
-- RDP tokens: what a token gives back, for how long, and how it is bound to a client.
use rdpproxy_v.Prelude.{
  ℕ, ◌<◌, ◌≡◌, refl, ap, ◌∙◌, true, false, Option, none, some, List, [], ◌∷◌, length, ltb,
  Bool-cases, inl, inr, ◌==◌, if◌then◌else◌, arith, lt→ltb,
}
use rdpproxy_v.Prelude.Text.{Text, codes, text_eq, text_eq_refl, non_empty}
use rdpproxy_v.Errors.{ok, err, map_result}
use rdpproxy_v.Crypto.{Crypto, encrypt, decrypt-encrypt}
use rdpproxy_v.Redis.{Redis}
use rdpproxy_v.Redis.Values.{Value, token, TokenPayload}
use rdpproxy_v.Redis.Keys
use rdpproxy_v.Sessions.Defs.{
  password_aad, fingerprint_digest, create_session, session_data, get_session,
  set_token_fingerprint, token_fingerprint_matches,
}
use rdpproxy_v.Sessions.Data.{SessionData, Ttls, token_payload}

module _ (R : Redis) (c : Crypto) (cfg : Ttls) where
  open R use {State, get, ttl, setex, delete, elapse, get-setex, ttl-setex, get-elapse, get-delete}

  get_session_at :
      (s : State) (t : Text) (o : Option Value)
      → get s (Keys.token t) ≡ o
      → get_session R c cfg s t ≡ elim (token_payload o) [
        | err e ↦ err e
        | ok none ↦ ok none
        | ok (some p) ↦ map_result some (session_data R c cfg t p)
      ]
  unfolding get_session
  get_session_at s t o e =
      ap
        (λ (x : Option Value). elim (token_payload x) [
          | err e ↦ err e
          | ok none ↦ ok none
          | ok (some p) ↦ map_result some (session_data R c cfg t p)
        ])
        e

  pub live_or_gone :
      (s : State) (k : Text) (v : Value) (t n : ℕ)
      → 0 < t
      → get (elapse (setex s k t v) n) k ≡ (if ltb n t then some v else none)
  live_or_gone s k v t n h =
      let there : get (setex s k t v) k ≡ some v =
        get-setex s k t v k h ∙ (rw (text_eq_refl k) refl) in
      let time : ttl (setex s k t v) k ≡ t = ttl-setex s k t v k h ∙ (rw (text_eq_refl k) refl) in
      let positive : (t == 0) ≡ false = ground arith in
      get-elapse (setex s k t v) n k ∙ (rw (time, there, positive) refl)

  module _ (s : State) (new_token nonce username password host : Text) (port : ℕ)
      (server_id server_display : Option Text) (drawn : length nonce ≡ 12)
      (lives : 0 < cfg.rdp_token_ttl) where
    abbrev created : State
    created =
        (create_session R c cfg new_token nonce s username password host port server_id
          server_display).1

    abbrev pub expected : SessionData
    expected = record {
      token = new_token;
      username = username;
      target_host = host;
      target_port = port;
      password = password;
      fingerprint = none;
      server_id = server_id;
      server_display = server_display;
    }

    abbrev stored : TokenPayload
    stored = record {
      username = username;
      password_enc =
          encrypt c nonce password (password_aad R c cfg (codes "rdp:token") new_token username);
      target_host = host;
      target_port = port;
      fingerprint = none;
      server_id = server_id;
      server_display = server_display;
    }

    stored_data : session_data R c cfg new_token stored ≡ ok expected
    unfolding session_data
    stored_data =
        rw
          (decrypt-encrypt c nonce password
            (password_aad R c cfg (codes "rdp:token") new_token username) drawn)
          refl

    -- A created session gives back all that it was created with, the password decrypted, until its
    -- time to live is over, and nothing from then on. (The nonce has 12 bytes, and the time to live
    -- of tokens is positive.)
    pub get-create_session :
        (n : ℕ)
        → get_session R c cfg (elapse created n) new_token
          ≡ (if ltb n cfg.rdp_token_ttl then ok (some expected) else ok none)
    get-create_session n = elim (Bool-cases (ltb n cfg.rdp_token_ttl)) [
      | inl live ↦ rw live (
          get_session_at (elapse created n) new_token (some (token stored))
            (kept n ∙ (rw live refl))
          ∙ (rw stored_data refl))
      | inr gone ↦
          rw gone (get_session_at (elapse created n) new_token none (kept n ∙ (rw gone refl)))
    ]
      where
        kept :
            (n : ℕ)
            → get (elapse created n) (Keys.token new_token)
              ≡ (if ltb n cfg.rdp_token_ttl then some (token stored) else none)
        kept n =
            unfold create_session in
            live_or_gone s (Keys.token new_token) (token stored) cfg.rdp_token_ttl n lives

  -- A second fingerprint of a token's client.
  matches_at :
      (s : State) (t fingerprint : Text) (p : TokenPayload)
      → get s (Keys.token t) ≡ some (token p)
      → token_fingerprint_matches R c cfg s t fingerprint ≡ elim p.fingerprint [
        | none ↦ ok false
        | some expected ↦ ok (
            if non_empty expected
            then text_eq expected (fingerprint_digest R c cfg fingerprint)
            else false)
      ]
  unfolding token_fingerprint_matches
  matches_at s t fingerprint p e = rw (e, token_fingerprint_matches) refl

  -- A live token stands at the key.
  pub record IsLive (t : Text) (s : State) : Type 0 where
    pub payload : TokenPayload
    pub there : get s (Keys.token t) ≡ some (token payload)
    pub time : 0 < ttl s (Keys.token t)

  -- The state after other clients' writes, and that each of them meets and leaves a live token.
  abbrev pub after_writes : List (State → State) → State → State
  after_writes [] s = s
  after_writes (f ∷ fs) s = after_writes fs (f s)

  abbrev pub StayLive : Text → List (State → State) → State → Type 0
  StayLive t [] s = IsLive t s
  StayLive t (f ∷ fs) s = IsLive t s × StayLive t fs (f s)

  round_disturbed :
      (t fingerprint : Text) (f : State → State) (fs : List (State → State)) (s : State)
      → IsLive t s
      → set_token_fingerprint R c cfg t fingerprint (f ∷ fs) s
        ≡ set_token_fingerprint R c cfg t fingerprint fs (f s)
  unfolding set_token_fingerprint
  round_disturbed t fingerprint f fs s h =
      rw (h.there, set_token_fingerprint) (rw (lt→ltb 0 (ttl s (Keys.token t)) h.time) refl)

  bound_state : Text → Text → TokenPayload → State → State
  bound_state t fingerprint p s =
      setex s (Keys.token t) (ttl s (Keys.token t))
        (token (record p { fingerprint = some (fingerprint_digest R c cfg fingerprint) }))

  round_quiet :
      (t fingerprint : Text) (s : State) (h : IsLive t s)
      → set_token_fingerprint R c cfg t fingerprint [] s
        ≡ ok (true, bound_state t fingerprint h.payload s)
  unfolding set_token_fingerprint bound_state
  round_quiet t fingerprint s h =
      rw (h.there, set_token_fingerprint) (rw (lt→ltb 0 (ttl s (Keys.token t)) h.time) refl)

  set_after_writes :
      (t fingerprint : Text) (fs : List (State → State)) (s : State)
      → StayLive t fs s
      → (set_token_fingerprint R c cfg t fingerprint fs s
          ≡ set_token_fingerprint R c cfg t fingerprint [] (after_writes fs s))
        × IsLive t (after_writes fs s)
  set_after_writes t fingerprint [] s h = (refl, h)
  set_after_writes t fingerprint (f ∷ fs) s h =
      let (e, live) = set_after_writes t fingerprint fs (f s) h.1 in
      (round_disturbed t fingerprint f fs s h.0 ∙ e, live)

  -- Binding a live token to a fingerprint succeeds, however many writes of other clients force
  -- another round, as long as each of them leaves a live token there. Then exactly the fingerprints
  -- with the digest of the bound one match, and the payload's other fields and the time to live are
  -- as the last of those writes left them. (A digest is not empty.)
  pub set_token_fingerprint_lem :
      (t fingerprint : Text) (fs : List (State → State)) (s : State)
      → StayLive t fs s
      → non_empty (fingerprint_digest R c cfg fingerprint) ≡ true
      → (s' : State) × (p : TokenPayload) × (set_token_fingerprint R c cfg t fingerprint fs s
          ≡ ok (true, s'))
        × (get (after_writes fs s) (Keys.token t) ≡ some (token p))
        × (get s' (Keys.token t)
            ≡ some
                (token (record p { fingerprint = some (fingerprint_digest R c cfg fingerprint) })))
        × (ttl s' (Keys.token t) ≡ ttl (after_writes fs s) (Keys.token t))
        × ((other : Text)
            → token_fingerprint_matches R c cfg s' t other
              ≡ ok (
                  text_eq
                    (fingerprint_digest R c cfg fingerprint)
                    (fingerprint_digest R c cfg other)))
  set_token_fingerprint_lem t fingerprint fs s h digest =
      let (e, live) = set_after_writes t fingerprint fs s h in
      let u = after_writes fs s in
      let bound = get-bound t fingerprint live.payload u live.time in
      (
        bound_state t fingerprint live.payload u,
        live.payload,
        e ∙ round_quiet t fingerprint u live,
        live.there,
        bound,
        unfold bound_state in
            (ttl-setex u (Keys.token t) (ttl u (Keys.token t)) _ (Keys.token t) live.time
              ∙ (rw (text_eq_refl (Keys.token t)) refl)),
        λ other.
            matches_at (bound_state t fingerprint live.payload u) t other _ bound
            ∙ (rw digest refl),
      )
    where
      get-bound :
          (t fingerprint : Text) (p : TokenPayload) (u : State)
          → 0 < ttl u (Keys.token t)
          → get (bound_state t fingerprint p u) (Keys.token t)
            ≡ some
                (token (record p { fingerprint = some (fingerprint_digest R c cfg fingerprint) }))
      get-bound t fingerprint p u live =
          unfold bound_state in
          (get-setex u (Keys.token t) (ttl u (Keys.token t)) _ (Keys.token t) live
            ∙ (rw (text_eq_refl (Keys.token t)) refl))
