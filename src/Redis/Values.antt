-- ===== src/Redis/Values.antt =====
-- What the program stores in Redis. The JSON objects of sessions.py and active_tracker.py are
-- records with the objects' keys as fields: `json.loads` gives back what `json.dumps` was given.
use rdpproxy_v.Prelude.{ℕ, Bool, Option, none, some, List}
use rdpproxy_v.Prelude.Text.{Text}

-- The payload of `create_session`.
pub record TokenPayload : Type 0 where
  pub username : Text
  pub password_enc : Text
  pub target_host : Text
  pub target_port : ℕ
  pub fingerprint : Option Text
  pub server_id : Option Text
  pub server_display : Option Text

-- The payload of `create_web_session`.
pub record WebPayload : Type 0 where
  pub username : Text
  pub password_enc : Text
  pub groups : List Text
  pub group_guids : List Text
  pub browser_fingerprint : Text
  pub last_seen_ts : ℕ

-- The payload of `create_admin_web_session`.
pub record AdminPayload : Type 0 where
  pub admin_user_id : Text
  pub username : Text
  pub must_change_password : Bool
  pub browser_fingerprint : Text
  pub last_seen_ts : ℕ
  pub allowed_ips : List Text

-- The payload of `ConnectionTracker.start`, with the rating that the quality plugin adds.
pub record ActivePayload : Type 0 where
  pub username : Text
  pub server_display : Option Text
  pub server_address : Text
  pub server_port : ℕ
  pub client_ip : Text
  pub started_at : Text
  pub instance_id : Text
  pub connection_quality : Option Text

pub data Value : Type 0 where
  number : ℕ → Value
  text : Text → Value
  token : TokenPayload → Value
  web : WebPayload → Value
  admin : AdminPayload → Value
  active : ActivePayload → Value

-- The number that INCR counts from, and the values that it can count.
abbrev pub count_of : Option Value → ℕ
count_of (some (number n)) = n
count_of _ = 0

abbrev pub IsCount : Option Value → Type 0
IsCount none = Unit
IsCount (some (number n)) = Unit
IsCount (some _) = ⊥
