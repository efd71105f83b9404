-- ===== src/Settings/Views.antt =====
-- libs/config/settings_manager.py: the directory and the name servers as the services read them, and
-- what the panel shows of all settings. `LdapConfig(**d)` and `DnsConfig(**d)` are pydantic's.
use rdpproxy_v.Prelude.{
  zero, ◌≡◌, refl, ap, ◌∙◌, Bool, true, false, not, Option, none, some, [], ◌∷◌, ◌++◌,
  if◌then◌else◌,
}
use rdpproxy_v.Prelude.Int.{pos}
use rdpproxy_v.Prelude.Text.{Text, codes, text_eq, non_empty}
use rdpproxy_v.Errors.{Result, ok, err, ◌>>=◌}
use rdpproxy_v.Crypto.{Crypto}
use rdpproxy_v.Dict.{Dict, has, get, set, merge, pop}
use rdpproxy_v.Dict.Laws.{has-merge, has-pop}
use rdpproxy_v.Settings.{Json, null, text, number, flag, texts, Manager, opened}
use rdpproxy_v.Settings.Secret.{secret, sealed_entry}
use rdpproxy_v.Settings.Params.{
  Base, or_default, security_defaults, security_params, proxy_params, redis_ttl, relay_params,
}
use rdpproxy_v.Settings.Config.{
  LdapConfig, DnsConfig, AppConfig, dump_ldap, dump_dns, numbers, portal_default,
}

-- `bool(v)` of a value of a dict.
abbrev pub truthy : Json → Bool
truthy null = false
truthy (text t) = non_empty t
truthy (number (pos zero)) = false
truthy (number n) = true
truthy (flag b) = b
truthy (texts []) = false
truthy (texts (t ∷ ts)) = true

-- `k not in d or not d[k]`
abbrev pub lacks : Option Json → Bool
lacks none = true
lacks (some v) = not (truthy v)

-- d.setdefault(k, v)
unfoldable pub setdefault : Text → Json → Dict Json → Dict Json
unfolding has set
setdefault k v d = let more = set k v d in if has k d then d else more

abbrev pub from_base : Option LdapConfig → Dict Json → Dict Json
from_base none d = d
from_base (some l) d = setdefault secret (text l.bind_password) d

-- The password of the configuration file, if there is none in the table.
unfoldable pub with_password : Option LdapConfig → Dict Json → Dict Json
unfolding get setdefault
with_password base d = if lacks (get secret d) then from_base base d else d

abbrev pub or_base : {A : Type 0} → A → Result A → A
or_base base (ok v) = v
or_base base (err e) = base

abbrev pub present : Result LdapConfig → Result (Option LdapConfig)
present (ok l) = ok (some l)
present (err e) = err e

-- The section of the directory, without its password.
abbrev pub ldap_section : Option LdapConfig → Dict (Dict Json)
ldap_section none = []
ldap_section (some l) = (codes "ldap", pop secret (dump_ldap l)) ∷ []

abbrev pub portal_section : Option (Dict Json) → Dict Json
portal_section none = portal_default
portal_section (some []) = portal_default
portal_section (some (e ∷ raw)) = e ∷ raw

abbrev pub shown_proxy : Json × Json → Dict Json
shown_proxy (host, port) = (codes "public_host", host) ∷ (codes "public_port", port) ∷ []

-- A section of what the panel shows.
abbrev pub section : Text → Dict (Dict Json) → Dict Json
section name shown = or_default (get name shown) []

-- dns, proxy, redis_ttl, relay and portal.
abbrev pub OtherSections : Type 0
OtherSections = Dict Json × Dict Json × Dict Json × Dict Json × Dict Json

-- The sections of all settings.
abbrev pub sections : Option LdapConfig → (security : Dict Json) → OtherSections → Dict (Dict Json)
sections ldap security (dns, proxy, redis_ttl, relay, portal) =
    ldap_section ldap
    ++ ((codes "dns", dns)
        ∷ (codes "proxy", proxy)
        ∷ (codes "security", security)
        ∷ (codes "redis_ttl", redis_ttl)
        ∷ (codes "relay", relay)
        ∷ (codes "portal", portal)
        ∷ [])

ldap_hidden :
    (o : Option LdapConfig) (s : Dict Json) (rest : OtherSections)
    → (has secret (section (codes "ldap") (sections o s rest)) ≡ false)
      × (has sealed_entry (section (codes "ldap") (sections o s rest)) ≡ false)
unfolding has get pop text_eq
ldap_hidden none s rest = (refl, refl)
ldap_hidden (some l) s rest = (refl, refl)

section_security :
    (o : Option LdapConfig) (s : Dict Json) (rest : OtherSections)
    → section (codes "security") (sections o s rest) ≡ s
unfolding get text_eq
section_security none s rest = refl
section_security (some l) s rest = refl

without : (base : Base) → has (codes "encryption_key") (security_defaults base) ≡ false
unfolding has text_eq
without base = refl

security_hidden :
    (base : Base) (m : Manager) → has (codes "encryption_key") (security_params base m) ≡ false
unfolding security_params
security_hidden base m = at (m.cache (codes "security"))
  where
    at :
        (o : Option (Dict Json))
        → has (codes "encryption_key") (elim o [
          | none ↦ security_defaults base
          | some raw ↦ merge (security_defaults base) (pop (codes "encryption_key") raw)
        ])
          ≡ false
    at none = without base
    at (some raw) =
        has-merge (codes "encryption_key") (security_defaults base)
          (pop (codes "encryption_key") raw)
        ∙ rw (without base, has-pop (codes "encryption_key") raw) refl

module _ (c : Crypto) (parse_ldap : Dict Json → Result LdapConfig)
    (parse_dns : Dict Json → Result DnsConfig) (cfg : AppConfig) where
  unfoldable pub ldap_view : Manager → Option LdapConfig
  unfolding opened with_password
  ldap_view m = elim (m.cache (codes "ldap")) [
    | none ↦ cfg.ldap
    | some raw ↦ or_base cfg.ldap (
        present (
          opened c raw (get sealed_entry raw) >>= λ d.
          parse_ldap (with_password cfg.ldap (pop sealed_entry d))))
  ]

  abbrev pub dns_view : Manager → DnsConfig
  dns_view m = elim (m.cache (codes "dns")) [
    | none ↦ cfg.dns
    | some raw ↦ or_base cfg.dns (parse_dns raw)
  ]

  unfoldable pub get_all_for_ui : Manager → Dict (Dict Json)
  unfolding ldap_view security_params proxy_params redis_ttl relay_params
  get_all_for_ui m = sections (ldap_view m) (security_params cfg.base m) (
    dump_dns (dns_view m),
    shown_proxy (proxy_params cfg.base m),
    numbers (redis_ttl cfg.base m),
    numbers (relay_params cfg.base m),
    portal_section (m.cache (codes "portal")),
  )

  -- What the panel shows has neither the password of the directory, as it is or encrypted, nor the
  -- key of the encryption, whatever the table and the configuration file have.
  pub get_all_for_ui_hides :
      (m : Manager)
      → ((has secret (section (codes "ldap") (get_all_for_ui m)) ≡ false)
          × (has sealed_entry (section (codes "ldap") (get_all_for_ui m)) ≡ false))
        × (has (codes "encryption_key") (section (codes "security") (get_all_for_ui m)) ≡ false)
  unfolding get_all_for_ui
  get_all_for_ui_hides m =
      let s = security_params cfg.base m in
      let rest : OtherSections = (
        dump_dns (dns_view m),
        shown_proxy (proxy_params cfg.base m),
        numbers (redis_ttl cfg.base m),
        numbers (relay_params cfg.base m),
        portal_section (m.cache (codes "portal")),
      ) in
      (
        ldap_hidden (ldap_view m) s rest,
        ap (has (codes "encryption_key")) (section_security (ldap_view m) s rest)
            ∙ security_hidden cfg.base m,
      )
