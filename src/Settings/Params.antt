-- ===== src/Settings/Params.antt =====
-- libs/config/settings_manager.py: the settings as the services read them, with the defaults of the
-- configuration file behind what the cache holds.
use rdpproxy_v.Prelude.{Bool, true, false, Option, none, some, List, [], ◌∷◌}
use rdpproxy_v.Prelude.Int.{ℤ, pos}
use rdpproxy_v.Prelude.Text.{Text, codes}
use rdpproxy_v.Dict
use rdpproxy_v.Dict.{Dict, merge, pop}
use rdpproxy_v.Settings.{Json, text, number, flag, texts, Manager}

-- What the accessors read of `AppConfig`.
pub record Base : Type 0 where
  pub public_host : Text
  pub public_port : ℤ
  pub token_fingerprint_enforce : Bool
  pub login_attempts_per_minute : ℤ
  pub login_lock_seconds : ℤ
  pub admin_groups : List Text
  pub delete_token_on_disconnect : Bool
  pub web_session_ttl : ℤ
  pub web_idle_ttl : ℤ
  pub rdp_token_ttl : ℤ
  pub max_connections : ℤ
  pub idle_timeout : ℤ
  pub max_session_duration : ℤ

-- raw.get(key, default)
abbrev pub or_default : {A : Type 0} → Option A → A → A
or_default none d = d
or_default (some v) d = v

-- `public_host` and `public_port`.
unfoldable pub proxy_params : Base → Manager → Json × Json
unfolding Dict.get
proxy_params base m = elim (m.cache (codes "proxy")) [
  | none ↦ (text base.public_host, number base.public_port)
  | some raw ↦ (
    or_default (Dict.get (codes "public_host") raw) (text base.public_host),
    or_default (Dict.get (codes "public_port") raw)
        (or_default (Dict.get (codes "listen_port") raw) (number base.public_port)),
  )
]

abbrev pub security_defaults : Base → Dict Json
security_defaults base =
    (codes "token_fingerprint_enforce", flag base.token_fingerprint_enforce)
    ∷ (codes "login_attempts_per_minute", number base.login_attempts_per_minute)
    ∷ (codes "login_lock_seconds", number base.login_lock_seconds)
    ∷ (codes "admin_groups", texts base.admin_groups)
    ∷ (codes "delete_token_on_disconnect", flag base.delete_token_on_disconnect)
    ∷ []

unfoldable pub security_params : Base → Manager → Dict Json
unfolding merge pop
security_params base m = elim (m.cache (codes "security")) [
  | none ↦ security_defaults base
  | some raw ↦ merge (security_defaults base) (pop (codes "encryption_key") raw)
]

-- `int(v)` of a value that is an instance of int; a bool is one.
abbrev pub int_of : Option Json → ℤ → ℤ
int_of (some (number n)) d = n
int_of (some (flag true)) d = pos 1
int_of (some (flag false)) d = pos 0
int_of _ d = d

-- `for k in defaults`
unfoldable pub overridden : Dict Json → Dict ℤ → Dict ℤ
unfolding Dict.get
overridden raw [] = []
overridden raw ((k, d) ∷ defaults) = (k, int_of (Dict.get k raw) d) ∷ overridden raw defaults

abbrev pub ttl_defaults : Base → Dict ℤ
ttl_defaults base =
    (codes "web_session_ttl", base.web_session_ttl)
    ∷ (codes "web_idle_ttl", base.web_idle_ttl)
    ∷ (codes "rdp_token_ttl", base.rdp_token_ttl)
    ∷ []

unfoldable pub redis_ttl : Base → Manager → Dict ℤ
unfolding overridden
redis_ttl base m = elim (m.cache (codes "redis_ttl")) [
  | none ↦ ttl_defaults base
  | some raw ↦ overridden raw (ttl_defaults base)
]

abbrev pub relay_defaults : Base → Dict ℤ
relay_defaults base =
    (codes "max_connections", base.max_connections)
    ∷ (codes "idle_timeout", base.idle_timeout)
    ∷ (codes "max_session_duration", base.max_session_duration)
    ∷ []

unfoldable pub relay_params : Base → Manager → Dict ℤ
unfolding overridden
relay_params base m = elim (m.cache (codes "relay")) [
  | none ↦ relay_defaults base
  | some raw ↦ overridden raw (relay_defaults base)
]
