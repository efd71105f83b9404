-- ===== src/Panel.antt =====
-- services/admin: how administrators come in (dependencies.py, routes/auth.py, security/passwords.py).
-- Python's `ipaddress`, `str.lower`, argon2 and the database's `lower` are parameters.
pub mod Access
pub mod Forms
pub mod Entry
pub mod Password
mod Tests
use rdpproxy_v.Prelude.{
  ℕ, Bool, true, false, ◌&&◌, ◌||◌, not, Option, none, some, List, [], ◌∷◌, ◌++◌, length, ltb, ◌==◌,
  if◌then◌else◌,
}
use rdpproxy_v.Prelude.Text.{Text, codes, text_eq, non_empty}
use rdpproxy_v.Errors.{Error, Result, ok, err, map_result}
use rdpproxy_v.Search.{strip}
use rdpproxy_v.Crypto.{Crypto}
use rdpproxy_v.Redis.{Redis}
use rdpproxy_v.Sessions.{
  Ttls, AdminWebSessionData, Interference, get_admin_web_session, create_admin_web_session,
  delete_admin_web_session, update_admin_must_change,
}
use rdpproxy_v.Limiter.{admin_limiter, is_locked, record_failure, clear}
use rdpproxy_v.Admins.{Reply, answer, http_error, AdminUser, AdminUsers, find_user, change_user}

-- What the handlers read of a request; a header that is missing is empty. `client_ip` is that of
-- request.state, which no middleware of the panel sets.
pub record Request : Type 0 where
  pub client_ip : Option Text
  pub x_forwarded_for : Text
  pub client_host : Option Text
  pub cookie_session : Option Text
  pub cookie_csrf : Option Text
  pub user_agent : Text
  pub sec_ch_ua : Text
  pub sec_ch_ua_platform : Text
  pub accept_language : Text

-- x or y, where x may be missing
abbrev pub or_else : Option Text → Text → Text
or_else none y = y
or_else (some []) y = y
or_else (some (ch ∷ x)) y = ch ∷ x

-- text.split(",")[0]
unfoldable pub first_field : Text → Text
first_field [] = []
first_field (ch ∷ t) = if ch == 44 then [] else ch ∷ first_field t

unfoldable pub get_client_ip : Request → Text
unfolding first_field strip
get_client_ip r = or_else r.client_ip (
    if non_empty r.x_forwarded_for
    then strip (first_field r.x_forwarded_for)
    else or_else r.client_host (codes "unknown"))

unfoldable pub browser_fingerprint : Request → Text
browser_fingerprint r =
    r.user_agent
    ++ (codes "||"
        ++ (r.sec_ch_ua
            ++ (codes "||" ++ (r.sec_ch_ua_platform ++ (codes "||" ++ r.accept_language)))))

-- The part of the configuration file that the panel's entrance reads.
pub record AdminConfig : Type 0 where
  pub allowed_networks : List Text
  pub login_attempts_per_minute : ℕ
  pub login_lock_seconds : ℕ

-- What argon2's `verify` does: returns, raises VerifyMismatchError, or raises something else.
pub data Verification : Type 0 where
  verified mismatched : Verification
  raised : Error → Verification

unfoldable pub verify_password : (verify : Text → Text → Verification) → Text → Text → Result Bool
verify_password verify password_hash plain = elim (verify password_hash plain) [
  | verified ↦ ok true
  | mismatched ↦ ok false
  | raised e ↦ err e
]

module _ {Address : Type 0} (ip_address : Text → Option Address)
    (in_network : Address → Text → Option Bool) where
  -- A text that is no network is compared as a text.
  unfoldable pub in_any : Text → Address → List Text → Bool
  unfolding text_eq
  in_any ip_str addr [] = false
  in_any ip_str addr (net_str ∷ networks) =
      (elim (in_network addr net_str) [ none ↦ text_eq ip_str net_str | some b ↦ b ])
      || in_any ip_str addr networks

  unfoldable pub ip_in_networks : Text → List Text → Bool
  unfolding in_any
  ip_in_networks ip_str networks = elim (ip_address ip_str) [
    | none ↦ false
    | some addr ↦ in_any ip_str addr networks
  ]

  -- `networks and not _ip_in_networks(...)` is false: an empty list allows every address.
  unfoldable pub allows : Text → List Text → Bool
  unfolding ip_in_networks
  allows client_ip [] = true
  allows client_ip (net ∷ networks) = ip_in_networks client_ip (net ∷ networks)

  -- The checks of `require_admin` on the session that it finds.
  unfoldable pub admitted :
      AdminConfig
      → Request
      → Result (Option AdminWebSessionData)
      → Result (Reply AdminWebSessionData)
  unfolding allows get_client_ip
  admitted cfg r (err e) = err e
  admitted cfg r (ok none) = ok (http_error 401)
  admitted cfg r (ok (some sess)) =
      if not (allows (get_client_ip r) cfg.allowed_networks)
      then ok (http_error 403)
      else if not (allows (get_client_ip r) sess.allowed_ips)
      then ok (http_error 403)
      else ok (answer sess)

module _ (R : Redis) (c : Crypto) (ttls : Ttls) where
  open R use {State}

  unfoldable pub found_session :
      Interference R c ttls → ℕ → State → Request → Result (Option AdminWebSessionData) × State
  unfolding get_admin_web_session browser_fingerprint
  found_session interference now s r = elim r.cookie_session [
    | none ↦ (ok none, s)
    | some sid ↦
        if non_empty sid
        then get_admin_web_session R c ttls interference now s sid (browser_fingerprint r)
        else (ok none, s)
  ]

  unfoldable pub require_admin :
      {Address : Type 0} (ip_address : Text → Option Address)
      (in_network : Address → Text → Option Bool)
      → AdminConfig
      → Interference R c ttls
      → ℕ
      → State
      → Request
      → Result (Reply AdminWebSessionData) × State
  unfolding admitted found_session
  require_admin ip_address in_network cfg interference now s r =
      let (found, s) = found_session interference now s r in
      (admitted ip_address in_network cfg r found, s)

  unfoldable pub logout : State → Request → State
  unfolding delete_admin_web_session
  logout s r = elim r.cookie_session [
    | none ↦ s
    | some sid ↦ if non_empty sid then delete_admin_web_session R c ttls s sid else s
  ]
