-- ===== src/Panel/Tests.antt =====
-- The administrator "root" at the panel, with a Redis in memory.
use rdpproxy_v.Prelude.{
  ◌≤◌, ◌≡◌, ◌+◌, ◌&&◌, ltb, leb, refl, arith, Bool, true, false, Option, none, some, [], ◌∷◌,
  length, if◌then◌else◌,
}
use rdpproxy_v.Prelude.Text.{Text, codes, text_eq, text_eq_refl, non_empty}
use rdpproxy_v.Errors.{Result, ok}
use rdpproxy_v.Search.{strip}
use rdpproxy_v.Crypto.Tagged.{tagged}
use rdpproxy_v.Redis.Memory.{Table, memory, nothing}
use rdpproxy_v.Sessions.{Ttls}
use rdpproxy_v.Limiter.{admin_limiter, is_locked}
use rdpproxy_v.Admins.{answer, AdminUser, AdminUsers, find_user}
use rdpproxy_v.Panel.{
  Request, AdminConfig, get_client_ip, browser_fingerprint, Verification, verified, mismatched,
  found_session, require_admin,
}
use rdpproxy_v.Panel.Access.{Allowed, Current, require_admin-Allowed, get_client_ip_forged}
use rdpproxy_v.Panel.Forms.{
  Page, redirect, named_admin, accepts, login_submit, change_password_submit,
}
use rdpproxy_v.Panel.Entry.{session_of, login_submit-found_session}
use rdpproxy_v.Panel.Password.{renewed, change_password_submit-accepts}

abbrev same : Text → Text
same t = t

-- A hash that is the password.
abbrev check : Text → Text → Verification
check hash plain = if text_eq hash plain then verified else mismatched

check_refl : (p : Text) → check p p ≡ verified
check_refl p = rw (text_eq_refl p) refl

abbrev ttls : Ttls
ttls = record { web_ttl = 3600; rdp_token_ttl = 300; web_idle_ttl = 900 }

abbrev cfg : AdminConfig
cfg = record {
  allowed_networks = codes "lan" ∷ [];
  login_attempts_per_minute = 3;
  login_lock_seconds = 60;
}

abbrev root : AdminUser
root = record {
  id = codes "7";
  username = codes "root";
  password_hash = codes "old password";
  is_active = true;
  must_change_password = true;
  allowed_ips = [];
  last_login_at = none;
}

abbrev request : Option Text → Request
request cookie = record {
  client_ip = none;
  x_forwarded_for = codes "lan, far away";
  client_host = some (codes "proxy");
  cookie_session = cookie;
  cookie_csrf = some (codes "c");
  user_agent = codes "fx";
  sec_ch_ua = [];
  sec_ch_ua_platform = [];
  accept_language = [];
}

abbrev logged : Result Page × (Table × AdminUsers)
logged =
    login_submit memory tagged ttls same same check same cfg (codes "id") 1000 (codes "now")
      (request none) (codes "root") (codes "old password") (codes "c") (nothing, root ∷ [])

logged_in : logged ≡ (ok (redirect true (some (codes "id"))), (logged.1.0, logged.1.1))
unfolding login_submit
logged_in = refl

login_submit-found_session_example :
    ((request none).cookie_csrf ≡ some (codes "c"))
    × (non_empty (codes "c") ≡ true)
    × (is_locked memory same admin_limiter nothing (get_client_ip (request none)) (codes "root")
        ≡ false)
    × ((user : AdminUser) × (named_admin same same (root ∷ []) (strip (codes "root")) ≡ some user)
        × (user.is_active ≡ true)
        × (check user.password_hash (codes "old password") ≡ verified)
        × ((found_session memory tagged ttls none
              (1000 + 500)
              (memory.elapse logged.1.0 500)
              (request (some (codes "id")))).0
            ≡ ok (
                if ltb 500 3600 && leb 500 900 then some (session_of (codes "id") user) else none)))
unfolding browser_fingerprint
login_submit-found_session_example =
    login_submit-found_session memory tagged ttls same same check same cfg (codes "id") 1000
      (codes "now") (request none) (codes "root") (codes "old password") (codes "c") nothing
      logged.1.0 (root ∷ []) logged.1.1 true (codes "id") 500 (request (some (codes "id"))) refl
      (omega arith) logged_in refl refl

-- An address is a text, a network the text of its one address.
abbrev in_lan : Text → Text → Option Bool
in_lan addr net = some (text_eq addr net)

let_in :
    (require_admin memory tagged ttls some in_lan cfg none 1500 logged.1.0
      (request (some (codes "id")))).0
    ≡ ok (answer (session_of (codes "id") root))
unfolding require_admin login_submit
let_in = refl

require_admin-Allowed_example :
    Current some in_lan memory tagged ttls none 1500 logged.1.0
      (request (some (codes "id")))
      (session_of (codes "id") root)
    × Allowed some in_lan (get_client_ip (request (some (codes "id")))) (codes "lan" ∷ [])
    × Allowed some in_lan (get_client_ip (request (some (codes "id")))) []
require_admin-Allowed_example =
    require_admin-Allowed some in_lan memory tagged ttls none 1500 logged.1.0
      (request (some (codes "id"))) (session_of (codes "id") root) cfg let_in

trimmed : strip (codes "lan") ≡ codes "lan"
unfolding strip
trimmed = refl

get_client_ip_forged_example : get_client_ip (request none) ≡ codes "lan"
get_client_ip_forged_example =
    get_client_ip_forged (request none) (codes "lan") (codes " far away") refl refl
      (refl, (refl, (refl, tt))) trimmed

abbrev after_change : Result Page × (Table × AdminUsers)
after_change =
    change_password_submit memory tagged ttls same same check same cfg
      (session_of (codes "id") root) (request none) (codes "old password") (codes "new password")
      (codes "new password") (codes "c") (logged.1.0, root ∷ [])

redirected : after_change ≡ (ok (redirect false none), (after_change.1.0, after_change.1.1))
unfolding change_password_submit login_submit
redirected = refl

change_password_submit-accepts_example :
    ((request none).cookie_csrf ≡ some (codes "c"))
    × (non_empty (codes "c") ≡ true)
    × (codes "new password" ≡ codes "new password")
    × (8 ≤ length (codes "new password"))
    × ((user : AdminUser) × (find_user (root ∷ []) (codes "7") ≡ some user)
        × (check user.password_hash (codes "old password") ≡ verified)
        × (find_user after_change.1.1 (codes "7") ≡ some (renewed (codes "new password") user))
        × (accepts check (find_user after_change.1.1 (codes "7")) (codes "new password")
            ≡ ok (if user.is_active then some (renewed (codes "new password") user) else none)))
change_password_submit-accepts_example =
    change_password_submit-accepts memory tagged ttls same same check same cfg
      (session_of (codes "id") root) (request none) (codes "old password") (codes "new password")
      (codes "new password") (codes "c") logged.1.0 after_change.1.0 (root ∷ []) after_change.1.1
      check_refl redirected
