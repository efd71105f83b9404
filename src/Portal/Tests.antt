-- ===== src/Portal/Tests.antt =====
-- Alice at the portal, with a Redis in memory.
use rdpproxy_v.Prelude.{
  ℕ, suc, ◌+◌, ◌&&◌, ltb, leb, ◌≡◌, refl, sym, ◌∙◌, ◌↔◌, inl, inr, true, false, Option, none, some,
  List, [], ◌∷◌, if◌then◌else◌, arith,
}
use rdpproxy_v.Prelude.Int.{pos}
use rdpproxy_v.Prelude.Holds.{Holds, holds-cons}
use rdpproxy_v.Prelude.Text.{Text, codes, text_eq, non_empty}
use rdpproxy_v.Errors.{Result, ok, err, other_error}
use rdpproxy_v.Search.{strip}
use rdpproxy_v.Crypto.Tagged.{tagged}
use rdpproxy_v.Redis.Memory.{Table, memory, nothing}
use rdpproxy_v.Sessions.{Ttls, WebSessionData}
use rdpproxy_v.Limiter.{is_locked, portal_limiter, uname}
use rdpproxy_v.Limiter.Locks.{IsCounting}
use rdpproxy_v.Limiter.Separated.{portal-IsSeparated}
use rdpproxy_v.Dict
use rdpproxy_v.Admins.{Reply, answer}
use rdpproxy_v.Settings.{Json, number, text, Manager, load}
use rdpproxy_v.Settings.Params.{Base, security_params}
use rdpproxy_v.Servers.{RdpServer}
use rdpproxy_v.Portal.{
  Request, UserInfo, Directory, LoginReply, form, redirect, entry, server_visible,
  list_visible_servers, checked_server, get_current_session, get_client_ip, browser_fingerprint,
  csrf_ok, setting, login, rdp_download,
}
use rdpproxy_v.Portal.Visible.{Permitted, server_visible-Permitted}
use rdpproxy_v.Portal.Listed.{IsReordering, HasUniqueNames, list_visible_servers-checked_server}
use rdpproxy_v.Portal.Download.{Current, Served, IsFile, rdp_download-Served}
use rdpproxy_v.Portal.Login.{session_of, login-get_current_session}
use rdpproxy_v.Portal.Lockout.{lock_seconds, attempt, attempts, attempts-locked_out}

abbrev same : Text → Text
same t = t

abbrev as_int : Json → ℕ
as_int (number (pos n)) = n
as_int _ = 0

abbrev as_str : Json → Text
as_str (text t) = t
as_str _ = []

abbrev cfg : Ttls
cfg = record { web_ttl = 3600; rdp_token_ttl = 300; web_idle_ttl = 900 }

abbrev base : Base
base = record {
  public_host = codes "gate";
  public_port = pos 443;
  token_fingerprint_enforce = true;
  login_attempts_per_minute = pos 1;
  login_lock_seconds = pos 60;
  admin_groups = [];
  delete_token_on_disconnect = true;
  web_session_ttl = pos 3600;
  web_idle_ttl = pos 900;
  rdp_token_ttl = pos 300;
  max_connections = pos 10;
  idle_timeout = pos 60;
  max_session_duration = pos 60;
}

abbrev manager : Manager
manager = record { db = λ k. none; cache = λ k. none }

abbrev farm : RdpServer
farm = record {
  id = codes "1";
  tech_name = codes "farm";
  display_name = codes "Farm";
  address = codes "10.0.0.5";
  port = 3389;
  is_enabled = true;
  sort_order = pos 0;
  group_bindings = codes "g" ∷ [];
}

abbrev rows : List RdpServer
rows = farm ∷ []

abbrev alice : UserInfo
alice = record { username = codes "alice"; groups = []; group_guids = codes " g " ∷ [] }

abbrev directory : Directory
directory name password = if text_eq password (codes "pw") then ok alice else err other_error

abbrev request : Option Text → Request
request cookie = record {
  client_ip = some (codes "9");
  client_host = none;
  cookie_session = cookie;
  cookie_csrf = some (codes "c");
  user_agent = codes "fx";
  sec_ch_ua = [];
  sec_ch_ua_platform = [];
  accept_language = [];
}

abbrev nonce : Text
nonce = codes "nonce-nonce!"

abbrev logged : LoginReply × Table
logged =
    login memory tagged cfg same as_int as_str base (some directory) manager (codes "id") nonce 1000
      (request none) (codes " alice") (codes "pw") (codes "c") nothing

logged_in : logged ≡ (redirect (codes "id") (pos 3600), logged.1)
unfolding login
logged_in = refl

server_visible-Permitted_example :
    (server_visible same (codes "g" ∷ []) (codes " g " ∷ []) ≡ true)
    ↔ Permitted same (codes "g" ∷ []) (codes " g " ∷ [])
server_visible-Permitted_example = server_visible-Permitted same (codes "g" ∷ []) (codes " g " ∷ [])

as_is : IsReordering (λ rs. rs)
as_is = record { kept = λ rs s h. h; known = λ rs s h. h }

one_farm : (a : RdpServer) → Holds rows a → a ≡ farm
one_farm a h = elim (holds-cons farm a [] h) [ inl e ↦ sym e | inr (i, e) ↦ cc ]

unique : HasUniqueNames rows
unique a b ha hb e = one_farm a ha ∙ sym (one_farm b hb)

list_visible_servers-checked_server_example :
    Holds (list_visible_servers same (λ rs. rs) rows (codes "g" ∷ [])) (entry farm) ↔ (
      (s : RdpServer) × (checked_server same rows (codes "farm") (codes "g" ∷ []) ≡ answer s)
      × (entry s ≡ entry farm))
list_visible_servers-checked_server_example =
    list_visible_servers-checked_server same (codes "g" ∷ []) (λ rs. rs) rows (entry farm) as_is
      unique

login-get_current_session_example :
    ((request none).cookie_csrf ≡ some (codes "c"))
    × (non_empty (codes "c") ≡ true)
    × (is_locked memory same portal_limiter nothing (get_client_ip (request none)) (codes " alice")
        ≡ false)
    × ((authenticate : Directory) × (user : UserInfo) × (some directory ≡ some authenticate)
        × (authenticate (strip (codes " alice")) (codes "pw") ≡ ok user)
        × ((get_current_session memory tagged cfg none
              (1000 + 500)
              (memory.elapse logged.1 500)
              (request (some (codes "id")))).0
            ≡ ok (
                if ltb 500 3600 && leb 500 900
                then some (session_of (codes "id") user (codes "pw"))
                else none)))
unfolding browser_fingerprint
login-get_current_session_example =
    login-get_current_session memory tagged cfg same as_int as_str base manager (codes "id") nonce
      1000 (request none) (some directory) (codes " alice") (codes "pw") (codes "c") nothing
      logged.1 (codes "id") (pos 3600) 500 (request (some (codes "id"))) refl refl (omega arith)
      logged_in refl refl

-- Alice downloads the file of the farm.
abbrev file : Result (Reply Text) × (Table × Manager)
file =
    rdp_download memory tagged cfg same as_int as_str base none (codes "tok") nonce 1500 rows []
      (request (some (codes "id"))) (codes "farm") (logged.1, manager)

abbrev content : Text
content = elim file.0 [ ok (answer t) ↦ t | _ ↦ [] ]

downloaded : file ≡ (ok (answer content), (file.1.0, file.1.1))
unfolding login rdp_download
downloaded = refl

rdp_download-Served_example :
    (session : WebSessionData) × Current memory tagged cfg same as_int as_str base
      (codes "tok")
      nonce
      refl
      (omega arith)
      rows
      []
      none
      1500
      logged.1
      (request (some (codes "id")))
      session
    × Served memory tagged cfg same as_int as_str base
        (codes "tok")
        nonce
        refl
        (omega arith)
        rows
        []
        session
        (codes "farm")
        file.1.0
    × IsFile memory tagged cfg same as_int as_str base
        (codes "tok")
        nonce
        refl
        (omega arith)
        rows
        []
        (load manager)
        content
rdp_download-Served_example =
    rdp_download-Served memory tagged cfg same as_int as_str base (codes "tok") nonce refl
      (omega arith) rows [] none 1500 (request (some (codes "id"))) (codes "farm") content logged.1
      file.1.0 manager file.1.1 downloaded

-- Two wrong passwords, where one is allowed.
abbrev guesses : List Text
guesses = codes "a" ∷ codes "b" ∷ []

abbrev guess : Text → Table → LoginReply × Table
guess =
    attempt memory tagged cfg same as_int as_str base manager (codes "id") nonce 1000 (request none)
      (codes "alice") (codes "c") directory

abbrev guessed : Table
guessed =
    attempts memory tagged cfg same as_int as_str base manager (codes "id") nonce 1000
      (request none) (codes "alice") (codes "c") directory guesses nothing

a_minute :
    lock_seconds memory tagged cfg same as_int as_str base manager
      (codes "id")
      nonce
      1000
      (request none)
      (codes "alice")
      (codes "c")
    ≡ 60
unfolding security_params Dict.get
a_minute = refl

one_more :
    2
    ≡ suc (
        setting memory tagged cfg same as_int as_str base
          (security_params base manager)
          (codes "login_attempts_per_minute"))
unfolding security_params Dict.get
one_more = refl

valid : csrf_ok (request none) (codes "c") ≡ true
unfolding csrf_ok
valid = refl

counting :
    IsCounting memory same portal_limiter portal-IsSeparated nothing
      (get_client_ip (request none))
      (uname memory same portal_limiter (codes "alice"))
counting = record { by_ip = tt; by_user = tt }

attempts-locked_out_example : guess (codes "pw") guessed ≡ (form 429, guessed)
unfolding text_eq
attempts-locked_out_example =
    attempts-locked_out memory tagged cfg same as_int as_str base manager (codes "id") nonce 1000
      (request none) (codes "alice") (codes "c") (omega (arith, a_minute)) valid directory guesses
      (codes "pw") nothing counting one_more ((other_error, refl), ((other_error, refl), tt))
