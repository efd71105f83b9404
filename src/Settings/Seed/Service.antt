-- ===== src/Settings/Seed/Service.antt =====
-- libs/config/settings_manager.py: the manager with its seeding, its hooks and the age of its cache.
use rdpproxy_v.Prelude.{ℕ, Bool, true, Option, none, some, List, [], ◌∷◌, ◌++◌, map, if◌then◌else◌}
use rdpproxy_v.Prelude.Text.{Bytes, Text}
use rdpproxy_v.Errors.{Error, Result, ok, err}
use rdpproxy_v.Crypto.{Crypto}
use rdpproxy_v.Redis.Keys
use rdpproxy_v.Dict.{Dict}
use rdpproxy_v.Settings.{Json, Manager, put, load, save, get_setting}
use rdpproxy_v.Settings.Config.{AppConfig, get_fallback, managed_keys}
use rdpproxy_v.Settings.Seed.{seed_keys}

-- `_seeded` and `_hooks` beside the table and the cache; a hook is a number.
pub record SettingsManager : Type 0 where
  pub manager : Manager
  pub seeded : Bool
  pub hooks : Text → List ℕ

-- What a save tells others: the hooks that it calls, with what, and what it publishes, with the
-- channel.
pub record Told : Type 0 where
  pub called : List (ℕ × Dict Json)
  pub published : Option (Text × Text)

abbrev pub nothing_told : Told
nothing_told = record { called = []; published = none }

-- `self._get_fallback(key) or {}`
abbrev pub or_empty : Option (Dict Json) → Dict Json
or_empty none = []
or_empty (some d) = d

-- The hooks of a key with the setting; what a hook raises is only logged.
abbrev pub run_hooks : List ℕ → Result (Dict Json) → Result (List (ℕ × Dict Json))
run_hooks hooks (err e) = err e
run_hooks hooks (ok setting) = ok (map (λ cb. (cb, setting)) hooks)

-- The end of a save; what `publish` raises is only logged.
abbrev pub announced :
    (key : Text) (redis_given : Bool) → Result (List (ℕ × Dict Json)) → Result (Unit {0}) × Told
announced key redis_given (err e) = (err e, nothing_told)
announced key redis_given (ok called) = (
  ok tt,
  record {
    called = called;
    published = if redis_given then some (Keys.settings_changed_channel, key) else none;
  },
)

-- `on_change`
abbrev pub on_change : (key : Text) (callback : ℕ) → SettingsManager → SettingsManager
on_change key callback s = record s { hooks = put s.hooks key (s.hooks key ++ (callback ∷ [])) }

abbrev pub after_seeding :
    SettingsManager → Result (Unit {0}) × Manager → Result (Unit {0}) × SettingsManager
after_seeding s (err e, m) = (err e, record s { manager = m })
after_seeding s (ok _, m) = (ok tt, record s { manager = m; seeded = true })

module _ (c : Crypto) (cfg : AppConfig) where
  -- `load`; `on_read` and `on_db` are what the sessions of the read and of each key raise, if they do.
  unfoldable pub load_settings :
      (nonce : Bytes) (on_read : Option Error) (on_db : Text → Option Error)
      → SettingsManager
      → Result (Unit {0}) × SettingsManager
  unfolding load seed_keys
  load_settings nonce (some e) on_db s = (err e, s)
  load_settings nonce none on_db s =
      if s.seeded
      then (ok tt, record s { manager = load s.manager })
      else after_seeding s (seed_keys c cfg nonce on_db managed_keys (load s.manager))

  abbrev pub current : SettingsManager → (key : Text) → Result (Dict Json)
  current s key = get_setting c (λ k. or_empty (get_fallback cfg k)) s.manager key

  -- `get`, with whether the cache is older than its lifetime.
  abbrev pub get_loaded :
      (key : Text) → Result (Unit {0}) × SettingsManager → Result (Dict Json) × SettingsManager
  get_loaded key (err e, s) = (err e, s)
  get_loaded key (ok _, s) = (current s key, s)

  unfoldable pub get_current :
      (stale : Bool) (nonce : Bytes) (on_read : Option Error) (on_db : Text → Option Error)
      → SettingsManager
      → (key : Text) → Result (Dict Json) × SettingsManager
  unfolding load_settings get_setting
  get_current stale nonce on_read on_db s key =
      let loaded = load_settings nonce on_read on_db s in
      if stale then get_loaded key loaded else (current s key, s)

  -- What a save that is through tells; the cache is young then.
  abbrev pub told :
      (redis_given : Bool)
      → (key : Text) → SettingsManager
      → Result (Unit {0}) × Manager
      → (Result (Unit {0}) × Told) × SettingsManager
  told redis_given key s (err e, m) = ((err e, nothing_told), record s { manager = m })
  told redis_given key s (ok _, m) = (
    announced key redis_given (run_hooks (s.hooks key) (current (record s { manager = m }) key)),
    record s { manager = m },
  )

  -- `save` with what follows the commit.
  unfoldable pub save_settings :
      (redis_given : Bool) (nonce : Bytes) (on_commit : Option Error)
      → SettingsManager
      → Text
      → Dict Json
      → (Result (Unit {0}) × Told) × SettingsManager
  unfolding save get_setting
  save_settings redis_given nonce on_commit s key value =
      told redis_given key s (save c nonce on_commit s.manager key value)
