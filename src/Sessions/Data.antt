-- ===== src/Sessions/Data.antt =====
-- The data of `SessionStore`: the sessions that its methods give, and the stored values read back.
use rdpproxy_v.Prelude.{ℕ, Bool, Option, none, some, List}
use rdpproxy_v.Prelude.Text.{Text}
use rdpproxy_v.Errors.{Result, ok, err, key_error}
use rdpproxy_v.Redis.Values.{Value, token, web, admin, TokenPayload, WebPayload, AdminPayload}

pub record SessionData : Type 0 where
  pub token : Text
  pub username : Text
  pub target_host : Text
  pub target_port : ℕ
  pub password : Text
  pub fingerprint : Option Text
  pub server_id : Option Text
  pub server_display : Option Text

pub record WebSessionData : Type 0 where
  pub session_id : Text
  pub username : Text
  pub groups : List Text
  pub group_guids : List Text
  pub password : Text

pub record AdminWebSessionData : Type 0 where
  pub session_id : Text
  pub admin_user_id : Text
  pub username : Text
  pub must_change_password : Bool
  pub allowed_ips : List Text

-- The lifetimes that the store is configured with.
pub record Ttls : Type 0 where
  pub web_ttl : ℕ
  pub rdp_token_ttl : ℕ
  pub web_idle_ttl : ℕ

-- `json.loads` of the value at a key, by the kind of object that the method reads.
abbrev pub token_payload : Option Value → Result (Option TokenPayload)
token_payload none = ok none
token_payload (some (token p)) = ok (some p)
token_payload (some _) = err key_error

abbrev pub web_payload : Option Value → Result (Option WebPayload)
web_payload none = ok none
web_payload (some (web p)) = ok (some p)
web_payload (some _) = err key_error

abbrev pub admin_payload : Option Value → Result (Option AdminPayload)
admin_payload none = ok none
admin_payload (some (admin p)) = ok (some p)
admin_payload (some _) = err key_error
