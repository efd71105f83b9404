-- ===== src/Settings/Config.antt =====
-- libs/config/loader.py: the configuration file, and what SettingsManager falls back to.
use rdpproxy_v.Prelude.{Bool, Option, none, some, List, [], ◌∷◌, map, if◌then◌else◌}
use rdpproxy_v.Prelude.Int.{ℤ}
use rdpproxy_v.Prelude.Text.{Text, codes, text_eq}
use rdpproxy_v.Dict.{Dict}
use rdpproxy_v.Settings.{Json, text, number, flag, texts}
use rdpproxy_v.Settings.Params.{Base, security_defaults, ttl_defaults, relay_defaults}

pub record LdapConfig : Type 0 where
  pub server : Text
  pub mode : Text
  pub port : ℤ
  pub tls_verify : Bool
  pub bind_dn : Text
  pub bind_password : Text
  pub users_dn : Text
  pub domain : Text
  pub user_filter : Text

-- The timeout is a float, which stands for itself: nothing computes with it.
pub record DnsConfig : Type 0 where
  pub servers : List Text
  pub timeout : Json
  pub cache_ttl : ℤ

pub record AppConfig : Type 0 where
  pub base : Base
  pub ldap : Option LdapConfig
  pub dns : DnsConfig

-- `model_dump()`, which gives the fields by name, in order.
abbrev pub dump_ldap : LdapConfig → Dict Json
dump_ldap l =
    (codes "server", text l.server)
    ∷ (codes "mode", text l.mode)
    ∷ (codes "port", number l.port)
    ∷ (codes "tls_verify", flag l.tls_verify)
    ∷ (codes "bind_dn", text l.bind_dn)
    ∷ (codes "bind_password", text l.bind_password)
    ∷ (codes "users_dn", text l.users_dn)
    ∷ (codes "domain", text l.domain)
    ∷ (codes "user_filter", text l.user_filter)
    ∷ []

abbrev pub dump_dns : DnsConfig → Dict Json
dump_dns d =
    (codes "servers", texts d.servers)
    ∷ (codes "timeout", d.timeout)
    ∷ (codes "cache_ttl", number d.cache_ttl)
    ∷ []

abbrev pub dump_proxy : Base → Dict Json
dump_proxy base =
    (codes "public_host", text base.public_host)
    ∷ (codes "public_port", number base.public_port)
    ∷ []

abbrev pub numbers : Dict ℤ → Dict Json
numbers d = map (λ (k, n). (k, number n)) d

abbrev pub portal_default : Dict Json
portal_default = (codes "name", text (codes "RDP-Proxy")) ∷ []

abbrev pub dumped : Option LdapConfig → Option (Dict Json)
dumped none = none
dumped (some l) = some (dump_ldap l)

-- The dump of `security` without its encryption_key has the fields of the defaults, in their order.
unfoldable pub get_fallback : AppConfig → Text → Option (Dict Json)
unfolding text_eq
get_fallback cfg key =
    if text_eq key (codes "ldap")
    then dumped cfg.ldap
    else if text_eq key (codes "dns")
    then some (dump_dns cfg.dns)
    else if text_eq key (codes "proxy")
    then some (dump_proxy cfg.base)
    else if text_eq key (codes "security")
    then some (security_defaults cfg.base)
    else if text_eq key (codes "redis_ttl")
    then some (numbers (ttl_defaults cfg.base))
    else if text_eq key (codes "relay")
    then some (numbers (relay_defaults cfg.base))
    else if text_eq key (codes "portal")
    then some portal_default
    else none

abbrev pub managed_keys : List Text
managed_keys =
    codes "ldap"
    ∷ codes "dns"
    ∷ codes "proxy"
    ∷ codes "security"
    ∷ codes "redis_ttl"
    ∷ codes "portal"
    ∷ codes "relay"
    ∷ []
