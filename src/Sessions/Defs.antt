-- ===== src/Sessions/Defs.antt =====
-- The methods of `SessionStore` on RDP tokens and portal sessions.
use rdpproxy_v.Prelude.{
  ℕ, ◌-◌, Bool, true, false, ◌&&◌, not, Option, none, some, List, [], ◌∷◌, ◌++◌, ltb, if◌then◌else◌,
}
use rdpproxy_v.Prelude.Text.{Bytes, Text, codes, text_eq, non_empty}
use rdpproxy_v.Errors.{Result, ok, err, map_result}
use rdpproxy_v.Crypto.{Crypto, encrypt, decrypt}
use rdpproxy_v.Redis.{Redis}
use rdpproxy_v.Redis.Values.{token, web, TokenPayload, WebPayload}
use rdpproxy_v.Redis.Keys
use rdpproxy_v.Sessions.Data.{SessionData, Ttls, WebSessionData, token_payload, web_payload}

-- What the checks of `get_web_session` and `get_admin_web_session` find.
pub data Verdict : Type 0 where
  mismatch idle fresh : Verdict

unfoldable pub verdict : Text → Text → ℕ → ℕ → ℕ → Verdict
verdict expected digest now last_seen idle_ttl =
    if non_empty expected && not (text_eq expected digest)
    then mismatch
    else if ltb idle_ttl (now - last_seen)
    then idle
    else fresh

module _ (R : Redis) (c : Crypto) (cfg : Ttls) where
  open R use {State, get, ttl, setex, delete}

  abbrev pub password_aad : Text → Text → Text → Bytes
  password_aad prefix identifier username =
      c.encode_utf8 (prefix ++ (codes ":" ++ (identifier ++ (codes ":" ++ username))))

  abbrev pub fingerprint_digest : Text → Text
  fingerprint_digest fingerprint = c.sha256_hex (c.encode_utf8 fingerprint)

  -- Another client's writes between WATCH and EXEC, if the key was written.
  abbrev pub Interference : Type 0
  Interference = Option (State → State)

  abbrev pub after_transaction : Interference → (State → State) → State → State
  after_transaction none commit s = commit s
  after_transaction (some other) commit s = other s

  unfoldable pub create_session :
      (new_token nonce : Text)
      → State
      → (username password target_host : Text) (target_port : ℕ)
      → (server_id server_display : Option Text) → Text × State
  unfolding encrypt
  create_session new_token nonce s username password host port server_id server_display = (
    new_token,
    setex s (Keys.token new_token) cfg.rdp_token_ttl (
        token (record {
          username = username;
          password_enc =
              encrypt c nonce password (password_aad (codes "rdp:token") new_token username);
          target_host = host;
          target_port = port;
          fingerprint = none;
          server_id = server_id;
          server_display = server_display;
        })),
  )

  unfoldable pub session_data : Text → TokenPayload → Result SessionData
  unfolding decrypt
  session_data t p =
      map_result
        (λ password. record {
          token = t;
          username = p.username;
          target_host = p.target_host;
          target_port = p.target_port;
          password = password;
          fingerprint = p.fingerprint;
          server_id = p.server_id;
          server_display = p.server_display;
        })
        (decrypt c p.password_enc (password_aad (codes "rdp:token") t p.username))

  unfoldable pub get_session : State → Text → Result (Option SessionData)
  unfolding session_data
  get_session s t = elim (token_payload (get s (Keys.token t))) [
    | err e ↦ err e
    | ok none ↦ ok none
    | ok (some p) ↦ map_result some (session_data t p)
  ]

  -- One round of the loop, from the read to EXEC. `none` is WatchError.
  unfoldable pub fingerprint_round :
      Text → Text → Interference → State → Result (Option Bool × State)
  fingerprint_round t fingerprint interference s = elim (token_payload (get s (Keys.token t))) [
    | err e ↦ err e
    | ok none ↦ ok (some false, s)
    | ok (some p) ↦
        if ltb 0 (ttl s (Keys.token t))
        then elim interference [
          | some other ↦ ok (none, other s)
          | none ↦ ok (
            some true,
            setex s (Keys.token t) (ttl s (Keys.token t))
                (token (record p { fingerprint = some (fingerprint_digest fingerprint) })),
          )
        ]
        else ok (some false, s)
  ]

  -- `while True`, against the writes of other clients in the rounds that they disturb; the round
  -- after the last of them is not disturbed.
  unfoldable pub set_token_fingerprint :
      Text → Text → List (State → State) → State → Result (Bool × State)
  unfolding fingerprint_round
  set_token_fingerprint t fingerprint [] s = elim (fingerprint_round t fingerprint none s) [
    | err e ↦ err e
    | ok (some b, s') ↦ ok (b, s')
    | ok (none, s') ↦ ok (false, s')
  ]
  set_token_fingerprint t fingerprint (other ∷ others) s =
      let again = set_token_fingerprint t fingerprint others (other s) in
      elim (fingerprint_round t fingerprint (some other) s) [
        | err e ↦ err e
        | ok (some b, s') ↦ ok (b, s')
        | ok (none, s') ↦ again
      ]

  unfoldable pub token_fingerprint_matches : State → Text → Text → Result Bool
  unfolding text_eq
  token_fingerprint_matches s t fingerprint = elim (token_payload (get s (Keys.token t))) [
    | err e ↦ err e
    | ok none ↦ ok false
    | ok (some p) ↦ elim p.fingerprint [
      | none ↦ ok false
      | some expected ↦
          ok (
            if non_empty expected then text_eq expected (fingerprint_digest fingerprint) else false)
    ]
  ]

  unfoldable pub delete_session : State → Text → State
  delete_session s t = delete s (Keys.token t)

  unfoldable pub create_web_session :
      (session_id nonce : Text) (now : ℕ)
      → State
      → (username password : Text) → (groups group_guids : List Text) → (browser_fingerprint : Text)
      → Text × State
  unfolding encrypt
  create_web_session session_id nonce now s username password groups group_guids fp = (
    session_id,
    setex s (Keys.web_session session_id) cfg.web_ttl (
        web (record {
          username = username;
          password_enc =
              encrypt c nonce password (password_aad (codes "rdp:web") session_id username);
          groups = groups;
          group_guids = group_guids;
          browser_fingerprint = fingerprint_digest fp;
          last_seen_ts = now;
        })),
  )

  unfoldable pub web_data : Text → WebPayload → Result WebSessionData
  unfolding decrypt
  web_data session_id p =
      map_result
        (λ password. record {
          session_id = session_id;
          username = p.username;
          groups = p.groups;
          group_guids = p.group_guids;
          password = password;
        })
        (decrypt c p.password_enc (password_aad (codes "rdp:web") session_id p.username))

  -- After the checks. A failed EXEC raises WatchError out of the `with` block's `try`, whose
  -- handler is `pass`, so the method goes on to build its answer.
  unfoldable pub web_answer :
      Verdict
      → Interference
      → Text
      → WebPayload
      → ℕ
      → State
      → Result (Option WebSessionData) × State
  unfolding web_data
  web_answer fresh interference session_id p now s =
      let key = Keys.web_session session_id in
      (
        map_result some (web_data session_id p),
        if ltb 0 (ttl s key)
            then after_transaction interference
                (λ t. setex t key (ttl s key) (web (record p { last_seen_ts = now }))) s
            else s,
      )
  web_answer _ none session_id p now s = (ok none, delete s (Keys.web_session session_id))
  web_answer _ (some other) session_id p now s = (map_result some (web_data session_id p), other s)

  unfoldable pub get_web_session :
      Interference → ℕ → State → Text → Text → Result (Option WebSessionData) × State
  unfolding web_answer verdict text_eq
  get_web_session interference now s session_id fp =
      elim (web_payload (get s (Keys.web_session session_id))) [
        | err e ↦ (err e, s)
        | ok none ↦ (ok none, s)
        | ok (some p) ↦
            web_answer
              (verdict p.browser_fingerprint (fingerprint_digest fp) now p.last_seen_ts
                cfg.web_idle_ttl)
              interference session_id p now s
      ]

  unfoldable pub delete_web_session : State → Text → State
  delete_web_session s session_id = delete s (Keys.web_session session_id)
