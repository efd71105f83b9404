-- ===== src/Portal.antt =====
-- services/portal: the login form, the list of servers and the .rdp files. The directory is an
-- argument, as identity/ldap_auth.py's `authenticate`; `lower` is str.lower, `sort_rows` the
-- database's ORDER BY.
pub mod Visible
pub mod Listed
pub mod Download
pub mod Login
pub mod Lockout
mod Tests
use rdpproxy_v.Prelude.{
  ℕ, Bool, true, false, ◌&&◌, ◌||◌, not, Option, none, some, List, [], ◌∷◌, ◌++◌, if◌then◌else◌,
}
use rdpproxy_v.Prelude.Int.{ℤ, pos}
use rdpproxy_v.Prelude.Text.{Text, codes, text_eq, non_empty}
use rdpproxy_v.Errors.{Result, ok, err}
use rdpproxy_v.Search.{strip}
use rdpproxy_v.Crypto.{Crypto}
use rdpproxy_v.Redis.{Redis}
use rdpproxy_v.Sessions.{
  Ttls, WebSessionData, Interference, create_session, get_web_session, create_web_session,
  delete_web_session,
}
use rdpproxy_v.Limiter.{portal_limiter, is_locked, record_failure, clear}
use rdpproxy_v.Admins.{Reply, answer, http_error}
use rdpproxy_v.RdpFile.{RdpTemplate, intersects, group_set, build_rdp_content}
use rdpproxy_v.Dict
use rdpproxy_v.Settings.{Json, number, Manager, load}
use rdpproxy_v.Settings.Params.{Base, or_default, proxy_params, security_params, redis_ttl}
use rdpproxy_v.Servers.{RdpServer}

-- What the handlers read of a request; a header that is missing is empty.
pub record Request : Type 0 where
  pub client_ip : Option Text
  pub client_host : Option Text
  pub cookie_session : Option Text
  pub cookie_csrf : Option Text
  pub user_agent : Text
  pub sec_ch_ua : Text
  pub sec_ch_ua_platform : Text
  pub accept_language : Text

-- x or y, where x may be missing
abbrev pub or_else : Option Text → Text → Text
or_else none y = y
or_else (some []) y = y
or_else (some (ch ∷ x)) y = ch ∷ x

unfoldable pub get_client_ip : Request → Text
get_client_ip r = or_else r.client_ip (or_else r.client_host (codes "unknown"))

unfoldable pub browser_fingerprint : Request → Text
browser_fingerprint r =
    r.user_agent
    ++ (codes "||"
        ++ (r.sec_ch_ua
            ++ (codes "||" ++ (r.sec_ch_ua_platform ++ (codes "||" ++ r.accept_language)))))

-- The form's token is that of the cookie.
unfoldable pub csrf_ok : Request → Text → Bool
unfolding text_eq
csrf_ok r csrf_token =
    let csrf_cookie = or_else r.cookie_csrf [] in
    not (not (non_empty csrf_cookie) || not (text_eq csrf_cookie csrf_token))

-- What the directory tells of a user.
pub record UserInfo : Type 0 where
  pub username : Text
  pub groups : List Text
  pub group_guids : List Text

abbrev pub Directory : Type 0
Directory = Text → Text → Result UserInfo

-- An entry of the list, in the order of the dict's keys: tech_name, display_name, address, port.
pub record Entry : Type 0 where
  pub id : Text
  pub name : Text
  pub host : Text
  pub port : ℕ
  pub groups : List Text

-- The answers of `login`: the form again, with its status, or the redirect with the cookie.
pub data LoginReply : Type 0 where
  form : ℕ → LoginReply
  redirect : (cookie : Text) (max_age : ℤ) → LoginReply

abbrev pub entry : RdpServer → Entry
entry s = record {
  id = s.tech_name;
  name = s.display_name;
  host = s.address;
  port = s.port;
  groups = s.group_bindings;
}

-- WHERE is_enabled
unfoldable pub enabled : List RdpServer → List RdpServer
enabled [] = []
enabled (s ∷ rows) = if s.is_enabled then s ∷ enabled rows else enabled rows

-- WHERE tech_name = server_id, the first row
unfoldable pub find_server : List RdpServer → Text → Option RdpServer
unfolding text_eq
find_server [] server_id = none
find_server (s ∷ rows) server_id =
    let rest = find_server rows server_id in if text_eq s.tech_name server_id then some s else rest

module _ (lower : Text → Text) where
  unfoldable pub server_visible : List Text → List Text → Bool
  unfolding group_set intersects
  server_visible [] user_group_guids = true
  server_visible (g ∷ gs) user_group_guids =
      intersects (group_set lower user_group_guids) (group_set lower (g ∷ gs))

  unfoldable pub visible_entries : List Text → List RdpServer → List Entry
  unfolding server_visible
  visible_entries user_group_guids [] = []
  visible_entries user_group_guids (s ∷ servers) =
      let rest = visible_entries user_group_guids servers in
      if server_visible s.group_bindings user_group_guids then entry s ∷ rest else rest

  unfoldable pub list_visible_servers :
      (sort_rows : List RdpServer → List RdpServer) → List RdpServer → List Text → List Entry
  unfolding visible_entries enabled
  list_visible_servers sort_rows rows user_group_guids =
      visible_entries user_group_guids (sort_rows (enabled rows))

  -- The two refusals of the row that was found.
  unfoldable pub checked : List Text → Option RdpServer → Reply RdpServer
  unfolding server_visible
  checked user_group_guids none = http_error 404
  checked user_group_guids (some server) =
      if not server.is_enabled
      then http_error 404
      else if not (server_visible server.group_bindings user_group_guids)
      then http_error 403
      else answer server

  unfoldable pub checked_server : List RdpServer → Text → List Text → Reply RdpServer
  unfolding find_server checked
  checked_server rows server_id user_group_guids =
      checked user_group_guids (find_server rows server_id)

module _ (R : Redis) (c : Crypto) (cfg : Ttls) where
  open R use {State}

  unfoldable pub get_current_session :
      Interference R c cfg → ℕ → State → Request → Result (Option WebSessionData) × State
  unfolding browser_fingerprint get_web_session
  get_current_session interference now s r = elim r.cookie_session [
    | none ↦ (ok none, s)
    | some session_id ↦
        if non_empty session_id
        then get_web_session R c cfg interference now s session_id (browser_fingerprint r)
        else (ok none, s)
  ]

  unfoldable pub logout : State → Request → State
  unfolding delete_web_session
  logout s r = elim r.cookie_session [
    | none ↦ s
    | some session_id ↦ if non_empty session_id then delete_web_session R c cfg s session_id else s
  ]

-- A setting's value where the callee's signature names an int or a str.
module _ (R : Redis) (c : Crypto) (cfg : Ttls) (lower : Text → Text) (as_int : Json → ℕ)
    (as_str : Json → Text) (base : Base) where
  open R use {State}

  abbrev pub setting : Dict.Dict Json → Text → ℕ
  setting d key = as_int (or_default (Dict.get key d) (number (pos 0)))

  unfoldable pub failed : Manager → Request → Text → State → State
  unfolding record_failure security_params Dict.get get_client_ip
  failed m r username s =
      let sec = security_params base m in
      record_failure R lower portal_limiter s (get_client_ip r) username
        (setting sec (codes "login_attempts_per_minute")) (setting sec (codes "login_lock_seconds"))

  unfoldable pub entered :
      Manager
      → (session_id nonce : Text) (now : ℕ) → Request
      → (username password : Text) → UserInfo
      → State
      → LoginReply × State
  unfolding clear create_web_session redis_ttl Dict.get get_client_ip browser_fingerprint
  entered m session_id nonce now r username password user s =
      let s = clear R lower portal_limiter s (get_client_ip r) username in
      let (cookie, s) =
        create_web_session R c cfg session_id nonce now s user.username password user.groups
          user.group_guids (browser_fingerprint r) in
      (
        redirect cookie
            (or_default (Dict.get (codes "web_session_ttl") (redis_ttl base m)) (pos 28800)),
        s,
      )

  -- After `ldap.authenticate`.
  unfoldable pub answered :
      Manager
      → (session_id nonce : Text) (now : ℕ) → Request
      → (username password : Text) → Result UserInfo
      → State
      → LoginReply × State
  unfolding failed entered
  answered m session_id nonce now r username password (err e) s = (form 401, failed m r username s)
  answered m session_id nonce now r username password (ok user) s =
      entered m session_id nonce now r username password user s

  unfoldable pub unlocked :
      Manager
      → (session_id nonce : Text) (now : ℕ) → Request
      → (username password : Text) → Option Directory
      → State
      → LoginReply × State
  unfolding strip answered
  unlocked m session_id nonce now r username password none s = (form 503, s)
  unlocked m session_id nonce now r username password (some authenticate) s =
      answered m session_id nonce now r username password (authenticate (strip username) password) s

  unfoldable pub login :
      (ldap : Option Directory)
      → Manager
      → (session_id nonce : Text) (now : ℕ) → Request
      → (username password csrf_token : Text) → State
      → LoginReply × State
  unfolding csrf_ok is_locked get_client_ip unlocked
  login ldap m session_id nonce now r username password csrf_token s =
      if not (csrf_ok r csrf_token)
      then (form 400, s)
      else if is_locked R lower portal_limiter s (get_client_ip r) username
      then (form 429, s)
      else unlocked m session_id nonce now r username password ldap s

  -- After the checks: a token for the server, and the file that holds it.
  unfoldable pub served :
      (token nonce : Text)
      → Manager
      → List RdpTemplate
      → WebSessionData
      → RdpServer
      → State
      → Text × State
  unfolding create_session build_rdp_content proxy_params
  served token nonce m templates session server s =
      let (t, s) =
        create_session R c cfg token nonce s session.username session.password server.address
          server.port (some server.id) (some server.display_name) in
      let (host, port) = proxy_params base m in
      (
        build_rdp_content lower (some templates) session.group_guids (as_str host) (as_int port) t,
        s,
      )

  unfoldable pub reply :
      (token nonce : Text)
      → List RdpTemplate
      → WebSessionData
      → Reply RdpServer
      → State × Manager
      → Result (Reply Text) × (State × Manager)
  unfolding served
  reply token nonce templates session (http_error code) (s, m) = (ok (http_error code), (s, m))
  reply token nonce templates session (answer server) (s, m) =
      let (content, s) = served token nonce m templates session server s in
      (ok (answer content), (s, m))

  -- What `rdp_download` does with the session that it finds.
  unfoldable pub download_for :
      (token nonce : Text)
      → (rows : List RdpServer) (templates : List RdpTemplate) → (server_id : Text)
      → Result (Option WebSessionData)
      → State × Manager
      → Result (Reply Text) × (State × Manager)
  unfolding load checked_server reply
  download_for token nonce rows templates server_id (err e) (s, m) = (err e, (s, m))
  download_for token nonce rows templates server_id (ok none) (s, m) = (ok (http_error 401), (s, m))
  download_for token nonce rows templates server_id (ok (some session)) (s, m) =
      reply token nonce templates session (checked_server lower rows server_id session.group_guids)
        (s, load m)

  unfoldable pub rdp_download :
      Interference R c cfg
      → (token nonce : Text) (now : ℕ) → (rows : List RdpServer) (templates : List RdpTemplate)
      → Request
      → (server_id : Text) → State × Manager
      → Result (Reply Text) × (State × Manager)
  unfolding get_current_session download_for
  rdp_download interference token nonce now rows templates r server_id (s, m) =
      let (found, s) = get_current_session R c cfg interference now s r in
      download_for token nonce rows templates server_id found (s, m)
