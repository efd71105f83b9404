-- ===== src/Panel/Entry.antt =====
-- services/admin/routes/auth.py: what a login and a change of the password lead to.
use mathlib.Core.Path.{subst}
use rdpproxy_v.Prelude.{
  ℕ, ◌+◌, ◌<◌, ◌≡◌, refl, sym, ap, Bool, true, false, ◌&&◌, not, Option, none, some, [], ◌∷◌, ◌||◌,
  ltb, leb, arith, if◌then◌else◌,
}
use rdpproxy_v.Prelude.Text.{Text, text_eq, text_eq_sound, non_empty}
use rdpproxy_v.Errors.{Result, ok, err, map_result}
use rdpproxy_v.Search.{strip}
use rdpproxy_v.Crypto.{Crypto}
use rdpproxy_v.Redis.{Redis}
use rdpproxy_v.Redis.Values.{AdminPayload}
use rdpproxy_v.Sessions.{
  Ttls, AdminWebSessionData, fingerprint_digest, create_admin_web_session, get_admin_web_session,
  admin_data,
}
use rdpproxy_v.Sessions.Lasting.{get_admin_web_session_after}
use rdpproxy_v.Limiter.{admin_limiter, is_locked, clear}
use rdpproxy_v.Admins.{AdminUser, AdminUsers}
use rdpproxy_v.Panel.{
  Request, or_else, AdminConfig, get_client_ip, browser_fingerprint, Verification, verified,
  mismatched, raised, verify_password, found_session,
}
use rdpproxy_v.Panel.Forms.{
  Page, form, redirect, csrf_ok, named_admin, accepts, entered, login_submit,
}

-- A form token that passes is the cookie's.
pub same_token :
    (r : Request) (csrf_token : Text)
    → csrf_ok r csrf_token ≡ true
    → (r.cookie_csrf ≡ some csrf_token) × (non_empty csrf_token ≡ true)
unfolding csrf_ok
same_token r csrf_token h = at r.cookie_csrf h
  where
    at :
        (o : Option Text)
        → not (not (non_empty (or_else o [])) || not (text_eq (or_else o []) csrf_token)) ≡ true
        → (o ≡ some csrf_token) × (non_empty csrf_token ≡ true)
    at none h = cc
    at (some []) h = cc
    at (some (ch ∷ x)) h =
        let same : ch ∷ x ≡ csrf_token = text_eq_sound (ch ∷ x) csrf_token (ground arith) in
        (ap some same, ap non_empty (sym same))

-- An account that the password form accepts is active, and its hash is verified.
accepts-verified :
    (verify : Text → Text → Verification) (o : Option AdminUser) (password : Text)
    (user : AdminUser)
    → accepts verify o password ≡ ok (some user)
    → (o ≡ some user) × (user.is_active ≡ true) × (verify user.password_hash password ≡ verified)
unfolding accepts verify_password
accepts-verified verify none password user h = cc
accepts-verified verify (some u) password user h =
    at u.is_active (verify u.password_hash password) refl refl h
  where
    at :
        (on : Bool) (v : Verification)
        → u.is_active ≡ on
        → verify u.password_hash password ≡ v
        → (if not on
            then ok none
            else map_result
                (λ (b : Bool). if b then some u else none)
                (elim v as (λ _. Result Bool) [
                  | verified ↦ ok true
                  | mismatched ↦ ok false
                  | raised e ↦ err e
                ]))
          ≡ ok (some user)
        → (some u ≡ some user)
          × (user.is_active ≡ true)
          × (verify user.password_hash password ≡ verified)
    at true verified e f h =
        let same : u ≡ user = cc h in
        (
          ap some same,
          subst (λ (x : AdminUser). x.is_active ≡ true) same e,
          subst (λ (x : AdminUser). verify x.password_hash password ≡ verified) same f,
        )
    at true mismatched e f h = cc
    at true (raised x) e f h = cc
    at false v e f h = cc

abbrev pub session_of : Text → AdminUser → AdminWebSessionData
session_of session_id user = record {
  session_id = session_id;
  admin_user_id = user.id;
  username = user.username;
  must_change_password = user.must_change_password;
  allowed_ips = user.allowed_ips;
}

module _ (R : Redis) (c : Crypto) (ttls : Ttls) (lower sql_lower : Text → Text)
    (verify : Text → Text → Verification) (hash : Text → Text) (cfg : AdminConfig)
    (session_id : Text) (now : ℕ) (now_text : Text) (r : Request) where
  open R use {State, elapse}

  abbrev pub submit :
      (username password csrf_token : Text)
      → State × AdminUsers
      → Result Page × (State × AdminUsers)
  submit = login_submit R c ttls lower sql_lower verify hash cfg session_id now now_text r

  abbrev payload : AdminUser → AdminPayload
  payload user = record {
    admin_user_id = user.id;
    username = user.username;
    must_change_password = user.must_change_password;
    browser_fingerprint = fingerprint_digest R c ttls (browser_fingerprint r);
    last_seen_ts = now;
    allowed_ips = user.allowed_ips;
  }

  -- The session of an account that has just been made.
  made : AdminUser → Text → State → State
  made user username s =
      (create_admin_web_session R c ttls session_id now
        (clear R lower admin_limiter s (get_client_ip r) username) user.id user.username
        user.must_change_password (browser_fingerprint r) user.allowed_ips).1

  found_after :
      (user : AdminUser) (username : Text) (s : State) (n : ℕ) (r' : Request)
      → 0 < ttls.web_ttl
      → browser_fingerprint r' ≡ browser_fingerprint r
      → (get_admin_web_session R c ttls none
          (now + n)
          (elapse (made user username s) n)
          session_id
          (browser_fingerprint r')).0
        ≡ ok (
            if ltb n ttls.web_ttl && leb n ttls.web_idle_ttl
            then some (session_of session_id user)
            else none)
  unfolding made create_admin_web_session admin_data
  found_after user username s n r' lives same =
      get_admin_web_session_after R c ttls lives
        (clear R lower admin_limiter s (get_client_ip r) username) session_id
        (browser_fingerprint r') (payload user) n (ap (fingerprint_digest R c ttls) (sym same))

  abbrev cookie_of : Page → Option Text
  cookie_of (form status) = none
  cookie_of (redirect must cookie) = cookie

  entered_redirect :
      (username : Text) (o : Result (Option AdminUser)) (s s' : State) (us us' : AdminUsers)
      (must : Bool) (cookie : Text)
      → entered R c ttls lower sql_lower verify hash cfg session_id now now_text r username o
          (s, us)
        ≡ (ok (redirect must (some cookie)), (s', us'))
      → (user : AdminUser) × (o ≡ ok (some user))
        × (session_id ≡ cookie)
        × (made user username s ≡ s')
  unfolding entered made create_admin_web_session
  entered_redirect username (err e) s s' us us' must cookie h = cc
  entered_redirect username (ok none) s s' us us' must cookie h = cc
  entered_redirect username (ok (some user)) s s' us us' must cookie h = (
    user,
    refl,
    cc (ap (λ (x : Result Page × (State × AdminUsers)). x.0) h),
    ap (λ (x : Result Page × (State × AdminUsers)). x.1.0) h,
  )

  submit_redirect :
      (username password csrf_token : Text) (s s' : State) (us us' : AdminUsers) (must : Bool)
      (cookie : Text)
      → submit username password csrf_token (s, us) ≡ (ok (redirect must (some cookie)), (s', us'))
      → (csrf_ok r csrf_token ≡ true)
        × (is_locked R lower admin_limiter s (get_client_ip r) username ≡ false)
        × ((user : AdminUser) × (accepts verify
                (named_admin lower sql_lower us (strip username))
                password
              ≡ ok (some user))
            × (session_id ≡ cookie)
            × (made user username s ≡ s'))
  unfolding login_submit
  submit_redirect username password csrf_token s s' us us' must cookie h =
      passed (csrf_ok r csrf_token) (is_locked R lower admin_limiter s (get_client_ip r) username)
        refl refl h
    where
      passed :
          (valid locked : Bool)
          → csrf_ok r csrf_token ≡ valid
          → is_locked R lower admin_limiter s (get_client_ip r) username ≡ locked
          → (if not valid
              then (ok (form 400), (s, us))
              else if locked
              then (ok (form 429), (s, us))
              else entered R c ttls lower sql_lower verify hash cfg session_id now now_text r
                  username
                  (accepts verify (named_admin lower sql_lower us (strip username)) password)
                  (s, us))
            ≡ (ok (redirect must (some cookie)), (s', us'))
          → (csrf_ok r csrf_token ≡ true)
            × (is_locked R lower admin_limiter s (get_client_ip r) username ≡ false)
            × ((user : AdminUser) × (accepts verify
                    (named_admin lower sql_lower us (strip username))
                    password
                  ≡ ok (some user))
                × (session_id ≡ cookie)
                × (made user username s ≡ s'))
      passed true false e f h = (
        e,
        f,
        entered_redirect username
            (accepts verify (named_admin lower sql_lower us (strip username)) password) s s' us us'
            must cookie h,
      )
      passed true true e f h = cc
      passed false locked e f h = cc

  -- A login at the panel that redirects had a form token that is the cookie's and not empty, and
  -- no lock, and named an active account whose hash argon2 verified with the password. A request
  -- with the cookie of the answer and the same fingerprint, n seconds later, finds that account's
  -- session exactly if n is below the lifetime of sessions and at most the idle time, with its id,
  -- name, allowed addresses and whether its password must be changed, as they were at the login;
  -- and none otherwise. (The session's id is not empty, sessions have a time to live, and nothing
  -- happens to Redis but that the n seconds pass.)
  pub login_submit-found_session :
      (username password csrf_token : Text) (s s' : State) (us us' : AdminUsers) (must : Bool)
      (cookie : Text) (n : ℕ) (r' : Request)
      → non_empty session_id ≡ true
      → 0 < ttls.web_ttl
      → submit username password csrf_token (s, us) ≡ (ok (redirect must (some cookie)), (s', us'))
      → r'.cookie_session ≡ some cookie
      → browser_fingerprint r' ≡ browser_fingerprint r
      → (r.cookie_csrf ≡ some csrf_token)
        × (non_empty csrf_token ≡ true)
        × (is_locked R lower admin_limiter s (get_client_ip r) username ≡ false)
        × ((user : AdminUser) × (named_admin lower sql_lower us (strip username) ≡ some user)
            × (user.is_active ≡ true)
            × (verify user.password_hash password ≡ verified)
            × ((found_session R c ttls none (now + n) (elapse s' n) r').0
                ≡ ok (
                    if ltb n ttls.web_ttl && leb n ttls.web_idle_ttl
                    then some (session_of session_id user)
                    else none)))
  unfolding found_session
  login_submit-found_session username password csrf_token s s' us us' must cookie n r' filled lives
        h sent same =
      let (valid, open_, (user, taken, is_id, after)) =
        submit_redirect username password csrf_token s s' us us' must cookie h in
      let (row, active, checked) =
        accepts-verified verify (named_admin lower sql_lower us (strip username)) password user
          taken in
      let (token_, some_token) = same_token r csrf_token valid in
      (
        token_,
        some_token,
        open_,
        (
          user,
          row,
          active,
          checked,
          rw (found_session, sent, sym is_id, filled, sym after)
              (found_after user username s n r' lives same),
        ),
      )
