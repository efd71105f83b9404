-- ===== src/Settings/Seed/Kept.antt =====
-- What a row has after the first load: its own entries, and the missing ones of the file.
use rdpproxy_v.Prelude.{
  ◌≡◌, refl, sym, ap, ◌∙◌, inl, inr, false, Bool-cases, Option, none, some, [], ◌∷◌, if◌then◌else◌,
}
use rdpproxy_v.Prelude.Text.{Bytes, Text, text_eq_refl}
use rdpproxy_v.Errors.{Error, Result, ok, err}
use rdpproxy_v.Crypto.{Crypto}
use rdpproxy_v.Dict.{Dict, get, merge}
use rdpproxy_v.Dict.Lookup.{or_first, or_first-none}
use rdpproxy_v.Settings.{Json, Manager, loaded, fresh, load}
use rdpproxy_v.Settings.Config.{AppConfig, get_fallback, managed_keys}
use rdpproxy_v.Settings.Seed.{
  absent_from, patch_source, patch_row, seed_from, seed_fallback, seed_key, seed_keys,
}
use rdpproxy_v.Settings.Seed.Rounds.{listed, seed_keys-other, seed_keys-at}
use rdpproxy_v.Settings.Seed.Service.{SettingsManager, or_empty, after_seeding, load_settings}
use rdpproxy_v.Settings.Seed.Defaults.{defaults, unmanaged, patch_source_empty, get-patched}

module _ (cfg : AppConfig) (c : Crypto) (nonce : Bytes) where
  -- The round of a key that the table has.
  seed_key-patched :
      (m : Manager) (key : Text) (d cached : Dict Json)
      → m.db key ≡ some (some d)
      → m.cache key ≡ some cached
      → (seed_key c cfg nonce none m key).1.db key
        ≡ some (some (merge d (absent_from cached (defaults cfg key))))
  unfolding seed_key seed_fallback seed_from patch_row merge absent_from defaults
  seed_key-patched m key d cached row young = at (get_fallback cfg key)
    where
      same : (x : Dict Json) → x ≡ [] → m.db key ≡ some (some (merge d (absent_from cached x)))
      same x e = rw e row

      patch :
          (missing : Dict Json)
          → (patch_row none m key missing (m.db key)).db key ≡ some (some (merge d missing))
      patch [] = row
      patch (x ∷ missing) = rw row (rw (text_eq_refl key) refl)

      at :
          (o : Option (Dict Json))
          → (seed_fallback c cfg nonce none m key o).1.db key
            ≡ some (some (merge d (absent_from cached (patch_source key (or_empty o)))))
      at none = same _ (patch_source_empty cfg key)
      at (some []) = same _ (patch_source_empty cfg key)
      at (some (x ∷ f)) = rw young (patch _)

  module _ (on_db : Text → Option Error) where
    pub first_load :
        (s : SettingsManager)
        → s.seeded ≡ false
        → (load_settings c cfg nonce none on_db s).1.manager
          ≡ (seed_keys c cfg nonce on_db managed_keys (load s.manager)).1
    unfolding load_settings
    first_load s h =
        ap
          (λ b.
            (if b
              then (ok tt, record s { manager = load s.manager })
              else after_seeding s
                  (seed_keys c cfg nonce on_db managed_keys (load s.manager))).1.manager)
          h
        ∙ at (seed_keys c cfg nonce on_db managed_keys (load s.manager))
      where
        at : (r : Result (Unit {0}) × Manager) → (after_seeding s r).1.manager ≡ r.1
        at (err e, m) = refl
        at (ok u, m) = refl

    -- After the first load of the table that can read it, a row that was a dict is a dict still. It
    -- has all the entries that it had, with their values, and for the others it has what the file
    -- has for the key, less the password of the directory (if no exception of the table comes in its
    -- round).
    pub load_settings_keeps :
        (s : SettingsManager) (key : Text) (d : Dict Json)
        → s.seeded ≡ false
        → s.manager.db key ≡ some (some d)
        → on_db key ≡ none
        → (row : Dict Json) × (((load_settings c cfg nonce none on_db s).1.manager.db key
              ≡ some (some row))
            × ((j : Text) → get j row ≡ or_first (get j d) (get j (defaults cfg key))))
    unfolding load defaults get
    load_settings_keeps s key d unseeded row quiet = elim (Bool-cases (listed key managed_keys)) [
      | inr n ↦ (
        d,
        (
          at_first ∙ ((seed_keys-other c cfg nonce on_db key managed_keys _ n).0 ∙ row),
          λ j. sym (
              rw (unmanaged cfg key n) (rw (patch_source_empty cfg key) (or_first-none (get j d)))),
        ),
      )
      | inl y ↦
          (let (m', (before, after)) =
              seed_keys-at c cfg nonce on_db key managed_keys (load s.manager) y refl in
            (
              merge d (absent_from (loaded key d) (defaults cfg key)),
              (
                at_first
                    ∙ (after.0
                        ∙ (ap (λ e. (seed_key c cfg nonce e m' key).1.db key) quiet
                            ∙ seed_key-patched m' key d (loaded key d) (before.0 ∙ row)
                                (before.1 ∙ ap (fresh key) row))),
                λ j. get-patched cfg key j d,
              ),
            ))
    ]
      where
        at_first :
            (load_settings c cfg nonce none on_db s).1.manager.db key
            ≡ (seed_keys c cfg nonce on_db managed_keys (load s.manager)).1.db key
        at_first = ap (λ m. m.db key) (first_load s unseeded)
