-- ===== src/Settings/Seed/Tests.antt =====
-- A first load over a table from before the seeding.
use rdpproxy_v.Prelude.{◌≡◌, refl, true, false, Option, none, some, [], ◌∷◌, if◌then◌else◌}
use rdpproxy_v.Prelude.Int.{pos}
use rdpproxy_v.Prelude.Text.{Text, codes, text_eq}
use rdpproxy_v.Errors.{Error, ok}
use rdpproxy_v.Crypto.Tagged.{tagged}
use rdpproxy_v.Dict.{Dict, has, get}
use rdpproxy_v.Dict.Lookup.{or_first, has_no_repeats}
use rdpproxy_v.Settings.{Json, text, number, load}
use rdpproxy_v.Settings.Params.{Base, proxy_params}
use rdpproxy_v.Settings.Config.{AppConfig}
use rdpproxy_v.Settings.Seed.Service.{SettingsManager, load_settings, save_settings}
use rdpproxy_v.Settings.Seed.Defaults.{defaults}
use rdpproxy_v.Settings.Seed.Kept.{load_settings_keeps}
use rdpproxy_v.Settings.Seed.Legacy.{proxy_params-seeded}
use rdpproxy_v.Settings.Seed.Hooks.{save_settings_tells}
use rdpproxy_v.Settings.Seed.Secrets.{SecretFree}
use rdpproxy_v.Settings.Seed.Steps.{loads, saves, beside, Runs, stays, own, other, Runs-SecretFree}

abbrev seed_base : Base
seed_base = record {
  public_host = codes "gate";
  public_port = pos 443;
  token_fingerprint_enforce = true;
  login_attempts_per_minute = pos 1;
  login_lock_seconds = pos 60;
  admin_groups = [];
  delete_token_on_disconnect = true;
  web_session_ttl = pos 3600;
  web_idle_ttl = pos 900;
  rdp_token_ttl = pos 300;
  max_connections = pos 10;
  idle_timeout = pos 60;
  max_session_duration = pos 60;
}

abbrev seed_config : AppConfig
seed_config = record {
  base = seed_base;
  ldap = some (record {
    server = codes "dc";
    mode = codes "plain";
    port = pos 389;
    tls_verify = false;
    bind_dn = codes "cn";
    bind_password = codes "pw";
    users_dn = codes "ou";
    domain = codes "corp";
    user_filter = [];
  });
  dns = record { servers = []; timeout = number (pos 3); cache_ttl = pos 300 };
}

-- The old_rows of `proxy` and `redis_ttl`, of few entries.
abbrev old_proxy : Dict Json
old_proxy = (codes "listen_port", number (pos 8443)) ∷ []

abbrev old_ttl : Dict Json
old_ttl = (codes "rdp_token_ttl", number (pos 60)) ∷ []

abbrev old_rows : Text → Option (Option (Dict Json))
old_rows k =
    if text_eq k (codes "proxy")
    then some (some old_proxy)
    else if text_eq k (codes "redis_ttl")
    then some (some old_ttl)
    else none

abbrev before_load : SettingsManager
before_load = record {
  manager = record { db = old_rows; cache = λ k. none };
  seeded = false;
  hooks = λ k. [];
}

abbrev no_error : Text → Option Error
no_error k = none

abbrev first_loaded : SettingsManager
first_loaded = (load_settings tagged seed_config (codes "nonce-nonce!") none no_error before_load).1

load_settings_keeps_example :
    (row : Dict Json) × ((first_loaded.manager.db (codes "redis_ttl") ≡ some (some row))
      × ((j : Text)
          → get j row
            ≡ or_first (get j old_ttl) (get j (defaults seed_config (codes "redis_ttl")))))
unfolding text_eq
load_settings_keeps_example =
    load_settings_keeps seed_config tagged (codes "nonce-nonce!") no_error before_load
      (codes "redis_ttl") old_ttl refl refl refl

proxy_params-seeded_example :
    ((proxy_params seed_base (load before_load.manager)).1 ≡ number (pos 8443))
    × ((proxy_params seed_base first_loaded.manager).1 ≡ number (pos 443))
unfolding text_eq has get
proxy_params-seeded_example =
    proxy_params-seeded seed_config old_proxy refl tagged (codes "nonce-nonce!") no_error
      before_load (number (pos 8443)) refl refl refl refl

-- Another service, with an empty cache of its own.
abbrev other_service : SettingsManager
other_service = record {
  manager = record { db = first_loaded.manager.db; cache = λ k. none };
  seeded = true;
  hooks = λ k. [];
}

abbrev new_password : Dict Json
new_password = (codes "bind_password", text (codes "new")) ∷ []

abbrev ldap_saved : SettingsManager
ldap_saved =
    (save_settings tagged seed_config true (codes "nonce-nonce!") none other_service (codes "ldap")
      new_password).1

load_then_save : Runs before_load (beside first_loaded ldap_saved)
load_then_save =
    own before_load first_loaded (beside first_loaded ldap_saved)
      (loads tagged seed_config (codes "nonce-nonce!") none no_error before_load)
      (other first_loaded other_service ldap_saved (beside first_loaded ldap_saved) refl
        (saves tagged seed_config true (codes "nonce-nonce!") none (codes "ldap") new_password
          other_service)
        (stays (beside first_loaded ldap_saved)))

Runs-SecretFree_example : SecretFree (beside first_loaded ldap_saved).manager
unfolding text_eq
Runs-SecretFree_example =
    Runs-SecretFree before_load (beside first_loaded ldap_saved) load_then_save (refl, refl)

-- A service with two hooks of `ldap`, and an address of the directory in its cache.
abbrev hooked : SettingsManager
hooked = record {
  manager = record { db = λ k. none; cache = λ k. some ((codes "server", text (codes "dc")) ∷ []) };
  seeded = true;
  hooks = λ k. 1 ∷ 2 ∷ [];
}

save_settings_tells_example :
    (d : Dict Json) × (((save_settings tagged seed_config true
          (codes "nonce-nonce!")
          none
          hooked
          (codes "ldap")
          new_password).0
        ≡ (
          ok tt,
          record {
            called = (1, d) ∷ (2, d) ∷ [];
            published = some (codes "rdp:settings:changed", codes "ldap");
          },
        ))
      × ((get (codes "bind_password") d ≡ some (text (codes "new")))
          × (get (codes "server") d ≡ some (text (codes "dc")))))
unfolding text_eq has get has_no_repeats
save_settings_tells_example =
    save_settings_tells tagged seed_config (codes "nonce-nonce!") hooked new_password (codes "new")
      (codes "server") refl refl refl refl refl refl
