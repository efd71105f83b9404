-- ===== src/Settings/Seed/Steps.antt =====
-- The services at one table: each has its own manager, and each operation is taken as a whole.
use rdpproxy_v.Prelude.{
  ℕ, ◌≡◌, refl, sym, ap, ◌∙◌, Bool, true, false, Option, none, some, if◌then◌else◌,
}
use mathlib.Core.Path.{subst}
use rdpproxy_v.Prelude.Text.{Bytes, Text, codes}
use rdpproxy_v.Errors.{Error, Result, ok, err}
use rdpproxy_v.Crypto.{Crypto}
use rdpproxy_v.Dict.{Dict}
use rdpproxy_v.Settings.{Json, Manager, load, save}
use rdpproxy_v.Settings.Secret.{has_secret, HasNoSecret, save-HasNoSecret, save-HasNoSecretCached}
use rdpproxy_v.Settings.Config.{AppConfig, managed_keys}
use rdpproxy_v.Settings.Seed.{seed_keys}
use rdpproxy_v.Settings.Seed.Secrets.{SecretFree, load-SecretFree, seed_keys-SecretFree}
use rdpproxy_v.Settings.Seed.Service.{
  SettingsManager, on_change, after_seeding, load_settings, told, save_settings,
}

-- The operations of one manager, which may have any configuration.
pub data Operates : SettingsManager → SettingsManager → Type 0 where
  loads :
      (c : Crypto) (cfg : AppConfig) (nonce : Bytes) (on_read : Option Error)
      (on_db : Text → Option Error) (s : SettingsManager)
      → Operates s (load_settings c cfg nonce on_read on_db s).1
  saves :
      (c : Crypto) (cfg : AppConfig) (redis_given : Bool) (nonce : Bytes) (on_commit : Option Error)
      (key : Text) (value : Dict Json) (s : SettingsManager)
      → Operates s (save_settings c cfg redis_given nonce on_commit s key value).1
  registers :
      (key : Text) (callback : ℕ) (s : SettingsManager) → Operates s (on_change key callback s)

-- A manager when the table is what another one left.
abbrev pub beside : SettingsManager → SettingsManager → SettingsManager
beside s other = record s { manager = record s.manager { db = other.manager.db } }

-- A manager's own operations, and those of any others that see the same table.
pub data Runs : SettingsManager → SettingsManager → Type 0 where
  stays : (s : SettingsManager) → Runs s s
  own : (s t u : SettingsManager) → Operates s t → Runs t u → Runs s u
  other :
      (s o o' u : SettingsManager)
      → o.manager.db ≡ s.manager.db
      → Operates o o'
      → Runs (beside s o') u
      → Runs s u

after_seeding-SecretFree :
    (s : SettingsManager) (r : Result (Unit {0}) × Manager)
    → SecretFree r.1
    → SecretFree (after_seeding s r).1.manager
after_seeding-SecretFree s (err e, m) h = h
after_seeding-SecretFree s (ok u, m) h = h

-- A load looks at nothing but the table.
load_settings-SecretFree :
    (c : Crypto) (cfg : AppConfig) (nonce : Bytes) (on_db : Text → Option Error)
    (s : SettingsManager)
    → HasNoSecret s.manager
    → SecretFree (load_settings c cfg nonce none on_db s).1.manager
unfolding load_settings
load_settings-SecretFree c cfg nonce on_db s h = at s.seeded (load-SecretFree s.manager h)
  where
    at :
        (b : Bool)
        → SecretFree (load s.manager)
        → SecretFree
            (if b
              then (ok tt, record s { manager = load s.manager })
              else after_seeding s
                  (seed_keys c cfg nonce on_db managed_keys (load s.manager))).1.manager
    at true n = n
    at false n =
        after_seeding-SecretFree s (seed_keys c cfg nonce on_db managed_keys (load s.manager))
          (seed_keys-SecretFree c cfg nonce on_db managed_keys (load s.manager) n)

told_manager :
    (c : Crypto) (cfg : AppConfig) (redis_given : Bool) (key : Text) (s : SettingsManager)
    (r : Result (Unit {0}) × Manager)
    → (told c cfg redis_given key s r).1.manager ≡ r.1
told_manager c cfg redis_given key s (err e, m) = refl
told_manager c cfg redis_given key s (ok u, m) = refl

-- The table stays without the password, whatever the cache has.
Operates-HasNoSecret :
    (s t : SettingsManager) → Operates s t → HasNoSecret s.manager → HasNoSecret t.manager
unfolding load_settings save_settings
Operates-HasNoSecret _ _ (loads c cfg nonce none on_db s) h =
    (load_settings-SecretFree c cfg nonce on_db s h).0
Operates-HasNoSecret _ _ (loads c cfg nonce (some e) on_db s) h = h
Operates-HasNoSecret _ _ (saves c cfg redis_given nonce on_commit key value s) h =
    ap HasRow (told_manager c cfg redis_given key s (save c nonce on_commit s.manager key value))
    ∙ save-HasNoSecret c nonce on_commit s.manager key value h
  where
    HasRow : Manager → Bool
    HasRow m = has_secret (m.db (codes "ldap"))
Operates-HasNoSecret _ _ (registers key callback s) h = h

Operates-SecretFree :
    (s t : SettingsManager) → Operates s t → SecretFree s.manager → SecretFree t.manager
unfolding load_settings save_settings
Operates-SecretFree _ _ (loads c cfg nonce none on_db s) h =
    load_settings-SecretFree c cfg nonce on_db s h.0
Operates-SecretFree _ _ (loads c cfg nonce (some e) on_db s) h = h
Operates-SecretFree _ _ (saves c cfg redis_given nonce on_commit key value s) h =
    subst SecretFree
      (sym (told_manager c cfg redis_given key s (save c nonce on_commit s.manager key value)))
      (
        save-HasNoSecret c nonce on_commit s.manager key value h.0,
        save-HasNoSecretCached c nonce on_commit s.manager key value h.1,
      )
Operates-SecretFree _ _ (registers key callback s) h = h

-- Whatever the services at one table do, in whatever order, with whatever configuration files and
-- values, and whatever fails: neither the row of ldap nor this service's cache ever gets an entry
-- bind_password, if they have none.
pub Runs-SecretFree :
    (s t : SettingsManager) → Runs s t → SecretFree s.manager → SecretFree t.manager
Runs-SecretFree _ _ (stays s) h = h
Runs-SecretFree _ _ (own s t u o r) h = Runs-SecretFree t u r (Operates-SecretFree s t o h)
Runs-SecretFree _ _ (other s o o' u table does r) h =
    Runs-SecretFree (beside s o') u r
      (Operates-HasNoSecret o o' does (ap (λ f. has_secret (f (codes "ldap"))) table ∙ h.0), h.1)
