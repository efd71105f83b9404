-- ===== src/Portal/Login.antt =====
-- services/portal/routes/auth.py: when `login` lets a user in, and what the session is that it makes.

use rdpproxy_v.Prelude.{
  ℕ, ◌+◌, ◌<◌, ◌≡◌, refl, sym, ap, ◌∙◌, Bool, true, false, not, ◌||◌, ◌&&◌, Option, none, some, [],
  length, ltb, leb, ◌∷◌, if◌then◌else◌, arith,
}
use rdpproxy_v.Prelude.Int.{ℤ}
use rdpproxy_v.Prelude.Text.{Text, codes, text_eq, text_eq_sound, non_empty}
use rdpproxy_v.Errors.{Result, ok, err, map_result}
use rdpproxy_v.Search.{strip}
use rdpproxy_v.Crypto.{Crypto, encrypt, decrypt-encrypt}
use rdpproxy_v.Redis.{Redis}
use rdpproxy_v.Redis.Values.{WebPayload}
use rdpproxy_v.Sessions.{
  Ttls, WebSessionData, password_aad, fingerprint_digest, create_web_session, web_data,
  get_web_session,
}
use rdpproxy_v.Sessions.Lasting.{get_web_session_after}
use rdpproxy_v.Limiter.{portal_limiter, is_locked, clear}
use rdpproxy_v.Settings.{Json, Manager}
use rdpproxy_v.Settings.Params.{Base}
use rdpproxy_v.Portal.{
  Request, or_else, UserInfo, Directory, LoginReply, form, redirect, get_client_ip,
  browser_fingerprint, get_current_session, csrf_ok, entered, answered, unlocked, login,
}

abbrev cookie_of : LoginReply → Text
cookie_of (form status) = []
cookie_of (redirect cookie age) = cookie

abbrev pub session_of : Text → UserInfo → Text → WebSessionData
session_of session_id user password = record {
  session_id = session_id;
  username = user.username;
  groups = user.groups;
  group_guids = user.group_guids;
  password = password;
}

-- A form token that passes is the cookie's.
pub same_token :
    (r : Request) (csrf_token : Text)
    → csrf_ok r csrf_token ≡ true
    → (r.cookie_csrf ≡ some csrf_token) × (non_empty csrf_token ≡ true)
unfolding csrf_ok
same_token r csrf_token h = at r.cookie_csrf h
  where
    at :
        (o : Option Text)
        → not (not (non_empty (or_else o [])) || not (text_eq (or_else o []) csrf_token)) ≡ true
        → (o ≡ some csrf_token) × (non_empty csrf_token ≡ true)
    at none h = cc
    at (some []) h = cc
    at (some (ch ∷ x)) h =
        let same : ch ∷ x ≡ csrf_token = text_eq_sound (ch ∷ x) csrf_token (ground arith) in
        (ap some same, ap non_empty (sym same))

both :
    (b : Bool) (session : WebSessionData)
    → (if b then map_result some (ok session) else ok none) ≡ ok (if b then some session else none)
both true session = refl
both false session = refl

module _ (R : Redis) (c : Crypto) (cfg : Ttls) (lower : Text → Text) (as_int : Json → ℕ)
    (as_str : Json → Text) (base : Base) (m : Manager) (session_id nonce : Text) (now : ℕ)
    (r : Request) where
  open R use {State, elapse}

  abbrev run : Option Directory → (username password csrf_token : Text) → State → LoginReply × State
  run ldap = login R c cfg lower as_int as_str base ldap m session_id nonce now r

  -- What a redirect says of the login.
  abbrev pub Entered : Option Directory → Text → Text → Text → State → State → Text → Type 0
  Entered ldap username password csrf_token s s' cookie =
      (csrf_ok r csrf_token ≡ true)
      × (is_locked R lower portal_limiter s (get_client_ip r) username ≡ false)
      × ((authenticate : Directory) × (user : UserInfo) × (ldap ≡ some authenticate)
          × (authenticate (strip username) password ≡ ok user)
          × (s'
              ≡ (entered R c cfg lower as_int as_str base m session_id nonce now r username password
                  user s).1)
          × (cookie ≡ session_id))

  answered_redirect :
      (username password : Text) (u : Result UserInfo) (s s' : State) (cookie : Text) (age : ℤ)
      → answered R c cfg lower as_int as_str base m session_id nonce now r username password u s
        ≡ (redirect cookie age, s')
      → (user : UserInfo) × (u ≡ ok user)
        × (s'
            ≡ (entered R c cfg lower as_int as_str base m session_id nonce now r username password
                user s).1)
        × (cookie ≡ session_id)
  unfolding answered entered create_web_session
  answered_redirect username password (err e) s s' cookie age h = cc
  answered_redirect username password (ok user) s s' cookie age h = (
    user,
    refl,
    ap (λ (x : LoginReply × State). x.1) (sym h),
    ap (λ (x : LoginReply × State). cookie_of x.0) (sym h),
  )

  unlocked_redirect :
      (ldap : Option Directory) (username password : Text) (s s' : State) (cookie : Text) (age : ℤ)
      → unlocked R c cfg lower as_int as_str base m session_id nonce now r username password ldap s
        ≡ (redirect cookie age, s')
      → (authenticate : Directory) × (user : UserInfo) × (ldap ≡ some authenticate)
        × (authenticate (strip username) password ≡ ok user)
        × (s'
            ≡ (entered R c cfg lower as_int as_str base m session_id nonce now r username password
                user s).1)
        × (cookie ≡ session_id)
  unfolding unlocked
  unlocked_redirect none username password s s' cookie age h = cc
  unlocked_redirect (some authenticate) username password s s' cookie age h =
      let (user, known, after, same) =
        answered_redirect username password (authenticate (strip username) password) s s' cookie age
          h in
      (authenticate, user, refl, known, after, same)

  login-Entered :
      (ldap : Option Directory) (username password csrf_token : Text) (s s' : State) (cookie : Text)
      (age : ℤ)
      → run ldap username password csrf_token s ≡ (redirect cookie age, s')
      → Entered ldap username password csrf_token s s' cookie
  unfolding login
  login-Entered ldap username password csrf_token s s' cookie age h =
      passed (csrf_ok r csrf_token) (is_locked R lower portal_limiter s (get_client_ip r) username)
        refl refl h
    where
      passed :
          (match_ locked : Bool)
          → csrf_ok r csrf_token ≡ match_
          → is_locked R lower portal_limiter s (get_client_ip r) username ≡ locked
          → (if not match_
              then (form 400, s)
              else if locked
              then (form 429, s)
              else unlocked R c cfg lower as_int as_str base m session_id nonce now r username
                  password ldap s)
            ≡ (redirect cookie age, s')
          → Entered ldap username password csrf_token s s' cookie
      passed true false e f h = (e, f, unlocked_redirect ldap username password s s' cookie age h)
      passed true true e f h = cc
      passed false locked e f h = cc

  -- The payload that `create_web_session` stores for a user.
  abbrev made : UserInfo → Text → WebPayload
  made user password = record {
    username = user.username;
    password_enc =
        encrypt c nonce password (password_aad R c cfg (codes "rdp:web") session_id user.username);
    groups = user.groups;
    group_guids = user.group_guids;
    browser_fingerprint = fingerprint_digest R c cfg (browser_fingerprint r);
    last_seen_ts = now;
  }

  made_data :
      (user : UserInfo) (password : Text)
      → length nonce ≡ 12
      → web_data R c cfg session_id (made user password) ≡ ok (session_of session_id user password)
  unfolding web_data
  made_data user password drawn =
      rw
        (decrypt-encrypt c nonce password
          (password_aad R c cfg (codes "rdp:web") session_id user.username) drawn)
        refl

  found_after :
      (username password : Text) (user : UserInfo) (s : State) (n : ℕ) (r' : Request)
      → length nonce ≡ 12
      → 0 < cfg.web_ttl
      → browser_fingerprint r' ≡ browser_fingerprint r
      → (get_web_session R c cfg none
          (now + n)
          (elapse
            (entered R c cfg lower as_int as_str base m session_id nonce now r username password
              user s).1
            n)
          session_id
          (browser_fingerprint r')).0
        ≡ ok (
            if ltb n cfg.web_ttl && leb n cfg.web_idle_ttl
            then some (session_of session_id user password)
            else none)
  unfolding entered create_web_session
  found_after username password user s n r' drawn lives same =
      get_web_session_after R c cfg lives
        (clear R lower portal_limiter s (get_client_ip r) username) session_id
        (browser_fingerprint r') (made user password) n (ap (fingerprint_digest R c cfg) (sym same))
      ∙ (rw (made_data user password drawn) (
          both (ltb n cfg.web_ttl && leb n cfg.web_idle_ttl) (session_of session_id user password)))

  -- A login that redirects had a form token that is the cookie's and not empty, and no lock, and
  -- the directory accepted the trimmed user name with the password. A request with the cookie of
  -- the answer and the same fingerprint, n seconds later, finds the session exactly if n is below
  -- the lifetime of sessions and at most the idle time: with the directory's name and groups of
  -- the user, and the password; and none otherwise. (The session's id is not empty, the nonce has
  -- 12 bytes, sessions have a time to live, and nothing happens to Redis but that the n seconds
  -- pass.)
  pub login-get_current_session :
      (ldap : Option Directory) (username password csrf_token : Text) (s s' : State) (cookie : Text)
      (age : ℤ) (n : ℕ) (r' : Request)
      → non_empty session_id ≡ true
      → length nonce ≡ 12
      → 0 < cfg.web_ttl
      → run ldap username password csrf_token s ≡ (redirect cookie age, s')
      → r'.cookie_session ≡ some cookie
      → browser_fingerprint r' ≡ browser_fingerprint r
      → (r.cookie_csrf ≡ some csrf_token)
        × (non_empty csrf_token ≡ true)
        × (is_locked R lower portal_limiter s (get_client_ip r) username ≡ false)
        × ((authenticate : Directory) × (user : UserInfo) × (ldap ≡ some authenticate)
            × (authenticate (strip username) password ≡ ok user)
            × ((get_current_session R c cfg none (now + n) (elapse s' n) r').0
                ≡ ok (
                    if ltb n cfg.web_ttl && leb n cfg.web_idle_ttl
                    then some (session_of session_id user password)
                    else none)))
  unfolding get_current_session
  login-get_current_session ldap username password csrf_token s s' cookie age n r' filled drawn
        lives h sent same =
      let (valid, open_, (authenticate, user, known, accepted_, after, is_id)) =
        login-Entered ldap username password csrf_token s s' cookie age h in
      let (token_, some_token) = same_token r csrf_token valid in
      (
        token_,
        some_token,
        open_,
        (
          authenticate,
          user,
          known,
          accepted_,
          rw (get_current_session, sent, is_id, filled, after)
              (found_after username password user s n r' drawn lives same),
        ),
      )
