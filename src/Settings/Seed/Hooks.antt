-- ===== src/Settings/Seed/Hooks.antt =====
-- What a save tells: the hooks and the other services.
use rdpproxy_v.Prelude.{◌≡◌, refl, ap, ◌∙◌, Bool, true, false, none, some, length, map}
use rdpproxy_v.Prelude.Text.{Bytes, Text, codes, text_eq, non_empty}
use rdpproxy_v.Errors.{Error, Result, ok, err}
use rdpproxy_v.Crypto.{Crypto, decrypt}
use rdpproxy_v.Dict.{Dict, get, merge}
use rdpproxy_v.Dict.Lookup.{or_first, has_no_repeats, get-merge}
use rdpproxy_v.Settings.{
  Json, text, Manager, secret_aad, without_listen, cached, seal_found, to_store, committed,
  save_stored, save, opened, get_setting,
}
use rdpproxy_v.Settings.Secret.{secret, sealed_entry}
use rdpproxy_v.Redis.Keys
use rdpproxy_v.Settings.ReadBack.{entries, save_ok, get_setting-save}
use rdpproxy_v.Settings.Config.{AppConfig, get_fallback}
use rdpproxy_v.Settings.Seed.Service.{
  SettingsManager, nothing_told, or_empty, announced, run_hooks, current, told, save_settings,
}

module _ (c : Crypto) (cfg : AppConfig) (nonce : Bytes) where
  -- A value without a password is stored as it is.
  to_store_plain :
      (value : Dict Json)
      → get secret value ≡ none
      → to_store c nonce (codes "ldap") value ≡ ok value
  unfolding to_store seal_found text_eq
  to_store_plain value h = rw h refl

  unreadable :
      (m : Manager) (raw : Dict Json) (blob : Text) (e : Error)
      → m.cache (codes "ldap") ≡ some raw
      → get sealed_entry raw ≡ some (text blob)
      → decrypt c blob secret_aad ≡ err e
      → get_setting c (λ k. or_empty (get_fallback cfg k)) m (codes "ldap") ≡ err e
  unfolding get_setting opened text_eq
  unreadable m raw blob e young had broken = rw (get_setting, young) (rw had (rw broken refl))

  module _ (s : SettingsManager) (raw value : Dict Json) where
    saved : Manager
    saved = committed c s.manager (codes "ldap") value

    -- What is cached after the save.
    cached_again :
        s.manager.cache (codes "ldap") ≡ some raw
        → saved.cache (codes "ldap") ≡ some (merge raw value)
    unfolding saved cached without_listen text_eq
    cached_again young = rw young refl

    -- The password that was in the cache is read again.
    current_sealed :
        (blob : Text) (e : Error)
        → s.manager.cache (codes "ldap") ≡ some raw
        → get sealed_entry raw ≡ some (text blob)
        → get sealed_entry value ≡ none
        → has_no_repeats value ≡ true
        → decrypt c blob secret_aad ≡ err e
        → current c cfg (record s { manager = saved }) (codes "ldap") ≡ err e
    current_sealed blob e young had new once broken =
        unreadable saved (merge raw value) blob e (cached_again young)
          (get-merge sealed_entry raw value once ∙ rw new had) broken

  -- A save of ldap that names no password is committed, and yet raises where the stored password
  -- cannot be decrypted: no hook is called and nothing is published.
  pub save_settings_untold :
      (redis_given : Bool) (s : SettingsManager) (raw value : Dict Json) (blob : Text) (e : Error)
      → s.manager.cache (codes "ldap") ≡ some raw
      → get sealed_entry raw ≡ some (text blob)
      → decrypt c blob secret_aad ≡ err e
      → get secret value ≡ none
      → get sealed_entry value ≡ none
      → has_no_repeats value ≡ true
      → save_settings c cfg redis_given nonce none s (codes "ldap") value
        ≡ ((err e, nothing_told), record s { manager = committed c s.manager (codes "ldap") value })
  unfolding save_settings save save_stored saved
  save_settings_untold redis_given s raw value blob e young had broken plain new once =
      ap
        (λ r.
          told c cfg redis_given (codes "ldap") s (save_stored c none s.manager (codes "ldap") r))
        (to_store_plain value plain)
      ∙ ap
          (λ r. (
            announced (codes "ldap") redis_given (run_hooks (s.hooks (codes "ldap")) r),
            record s { manager = committed c s.manager (codes "ldap") value },
          ))
          (current_sealed s raw value blob e young had new once broken)

told_ok :
    (c : Crypto) (cfg : AppConfig) (redis_given : Bool) (key : Text) (s : SettingsManager)
    (r : Result (Unit {0}) × Manager) (d : Dict Json)
    → r.0 ≡ ok tt
    → current c cfg (record s { manager = r.1 }) key ≡ ok d
    → (told c cfg redis_given key s r).0
      ≡ announced key redis_given (run_hooks (s.hooks key) (ok d))
told_ok c cfg redis_given key s (err e, m) d h read = absurd cc
told_ok c cfg redis_given key s (ok u, m) d h read =
    ap (λ x. announced key redis_given (run_hooks (s.hooks key) x)) read

-- A save of ldap with a Redis to publish on and a password that is no empty text (and no key twice,
-- a nonce of 12 bytes and a commit that goes through) calls all hooks of ldap in their order and
-- publishes the key. The setting that it calls them with has the password as it was given, and
-- under any key other than the two of the password what the value has, before what was cached.
pub save_settings_tells :
    (c : Crypto) (cfg : AppConfig) (nonce : Bytes) (s : SettingsManager) (value : Dict Json)
    (password j : Text)
    → has_no_repeats value ≡ true
    → length nonce ≡ 12
    → get secret value ≡ some (text password)
    → non_empty password ≡ true
    → text_eq secret j ≡ false
    → text_eq sealed_entry j ≡ false
    → (d : Dict Json) × (((save_settings c cfg true nonce none s (codes "ldap") value).0 ≡ (
      ok tt,
      record {
        called = map (λ hook. (hook, d)) (s.hooks (codes "ldap"));
        published = some (Keys.settings_changed_channel, codes "ldap");
      },
    ))
        × ((get secret d ≡ some (text password))
            × (get j d
                ≡ or_first (get j value) (get j (entries (s.manager.cache (codes "ldap")))))))
unfolding save_settings
save_settings_tells c cfg nonce s value password j once twelve had long p q =
    let (d, (read, found)) =
      get_setting-save c nonce password value once (λ k. or_empty (get_fallback cfg k)) s.manager j
        twelve had long p q in
    (
      d,
      (
        told_ok c cfg true (codes "ldap") s (save c nonce none s.manager (codes "ldap") value) d
            (save_ok c nonce password value once s.manager had long) read,
        found,
      ),
    )
