-- ===== src/Panel/Forms.antt =====
-- services/admin/routes/auth.py: the forms `login_submit` and `change_password_submit`.
use rdpproxy_v.Prelude.{
  ℕ, Bool, true, false, ◌||◌, not, Option, none, some, [], ◌∷◌, length, ltb, if◌then◌else◌,
}
use rdpproxy_v.Prelude.Text.{Text, text_eq, non_empty}
use rdpproxy_v.Errors.{Result, ok, err, map_result}
use rdpproxy_v.Search.{strip}
use rdpproxy_v.Crypto.{Crypto}
use rdpproxy_v.Redis.{Redis}
use rdpproxy_v.Sessions.{
  Ttls, AdminWebSessionData, create_admin_web_session, update_admin_must_change,
}
use rdpproxy_v.Limiter.{admin_limiter, is_locked, record_failure, clear}
use rdpproxy_v.Admins.{AdminUser, AdminUsers, find_user, change_user}
use rdpproxy_v.Panel.{
  Request, AdminConfig, or_else, get_client_ip, browser_fingerprint, Verification, verify_password,
}

-- A page with its status, or a redirect with what it sets of the session's cookie.
pub data Page : Type 0 where
  form : ℕ → Page
  redirect : (must_change : Bool) (cookie : Option Text) → Page

-- The form's token is that of the cookie.
unfoldable pub csrf_ok : Request → Text → Bool
unfolding text_eq
csrf_ok r csrf_token =
    let csrf_cookie = or_else r.cookie_csrf [] in
    not (not (non_empty csrf_cookie) || not (text_eq csrf_cookie csrf_token))

-- select(AdminUser).where(lower(username) == uname.lower()), the first row
unfoldable pub named_admin : (lower sql_lower : Text → Text) → AdminUsers → Text → Option AdminUser
unfolding text_eq
named_admin lower sql_lower [] uname = none
named_admin lower sql_lower (u ∷ us) uname =
    let rest = named_admin lower sql_lower us uname in
    if text_eq (sql_lower u.username) (lower uname) then some u else rest

module _ (verify : Text → Text → Verification) where
  -- user is None or not user.is_active or not verify_password(...), negated
  unfoldable pub accepts : Option AdminUser → Text → Result (Option AdminUser)
  unfolding verify_password
  accepts none password = ok none
  accepts (some user) password =
      if not user.is_active
      then ok none
      else map_result (λ (b : Bool). if b then some user else none)
          (verify_password verify user.password_hash password)

  -- `verify_password`, of a user that is there.
  unfoldable pub right_password : Option AdminUser → Text → Result Bool
  unfolding verify_password
  right_password none password = ok false
  right_password (some user) password = verify_password verify user.password_hash password

module _ (R : Redis) (c : Crypto) (ttls : Ttls) (lower sql_lower : Text → Text)
    (verify : Text → Text → Verification) (hash : Text → Text) (cfg : AdminConfig) where
  open R use {State}

  -- The account's row is committed before Redis is written.
  unfoldable pub entered :
      (session_id : Text) (now : ℕ) (now_text : Text)
      → Request
      → (username : Text) → Result (Option AdminUser)
      → State × AdminUsers
      → Result Page × (State × AdminUsers)
  unfolding record_failure clear create_admin_web_session get_client_ip browser_fingerprint
      change_user
  entered session_id now now_text r username (err e) (s, us) = (err e, (s, us))
  entered session_id now now_text r username (ok none) (s, us) = (
    ok (form 401),
    (
      record_failure R lower admin_limiter s (get_client_ip r) username
          cfg.login_attempts_per_minute cfg.login_lock_seconds,
      us,
    ),
  )
  entered session_id now now_text r username (ok (some user)) (s, us) =
      let us = change_user us user.id (λ u. record u { last_login_at = some now_text }) in
      let s = clear R lower admin_limiter s (get_client_ip r) username in
      let (cookie, s) =
        create_admin_web_session R c ttls session_id now s user.id user.username
          user.must_change_password (browser_fingerprint r) user.allowed_ips in
      (ok (redirect user.must_change_password (some cookie)), (s, us))

  unfoldable pub login_submit :
      (session_id : Text) (now : ℕ) (now_text : Text)
      → Request
      → (username password csrf_token : Text) → State × AdminUsers
      → Result Page × (State × AdminUsers)
  unfolding csrf_ok is_locked get_client_ip strip named_admin accepts entered
  login_submit session_id now now_text r username password csrf_token (s, us) =
      if not (csrf_ok r csrf_token)
      then (ok (form 400), (s, us))
      else if is_locked R lower admin_limiter s (get_client_ip r) username
      then (ok (form 429), (s, us))
      else entered session_id now now_text r username
          (accepts verify (named_admin lower sql_lower us (strip username)) password) (s, us)

  unfoldable pub changed :
      AdminWebSessionData
      → (new_password : Text) → Option AdminUser
      → Result Bool
      → State × AdminUsers
      → Result Page × (State × AdminUsers)
  unfolding update_admin_must_change change_user
  changed admin new_password none right (s, us) = (ok (form 404), (s, us))
  changed admin new_password (some user) (err e) (s, us) = (err e, (s, us))
  changed admin new_password (some user) (ok false) (s, us) = (ok (form 401), (s, us))
  changed admin new_password (some user) (ok true) (s, us) =
      let us =
        change_user us admin.admin_user_id
          (λ u. record u { password_hash = hash new_password; must_change_password = false }) in
      elim (update_admin_must_change R c ttls s admin.session_id false) [
        | ok s' ↦ (ok (redirect false none), (s', us))
        | err e ↦ (err e, (s, us))
      ]

  -- `admin` is the session that `require_admin` let in. 400 stands for the three refusals of what
  -- was typed, 404 for the HTTPException.
  unfoldable pub change_password_submit :
      AdminWebSessionData
      → Request
      → (current_password new_password new_password2 csrf_token : Text) → State × AdminUsers
      → Result Page × (State × AdminUsers)
  unfolding csrf_ok text_eq find_user right_password changed
  change_password_submit admin r current_password new_password new_password2 csrf_token (s, us) =
      let user = find_user us admin.admin_user_id in
      if not (csrf_ok r csrf_token)
        || (not (text_eq new_password new_password2) || ltb (length new_password) 8)
      then (ok (form 400), (s, us))
      else changed admin new_password user (right_password verify user current_password) (s, us)
