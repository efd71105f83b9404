-- ===== src/Settings/Seed/Legacy.antt =====
-- A row of `proxy` from the time when the port was called listen_port.
use rdpproxy_v.Prelude.{◌≡◌, refl, ap, ◌∙◌, true, false, Option, none, some, [], ◌∷◌}
use rdpproxy_v.Prelude.Text.{Bytes, Text, codes, text_eq}
use rdpproxy_v.Errors.{Error}
use rdpproxy_v.Crypto.{Crypto}
use rdpproxy_v.Dict.{Dict, has, get, merge}
use rdpproxy_v.Dict.Lookup.{has_no_repeats, get-absent, get-merge}
use rdpproxy_v.Settings.{Json, number, Manager, loaded, fresh, load}
use rdpproxy_v.Settings.Params.{Base, or_default, proxy_params}
use rdpproxy_v.Settings.Config.{AppConfig, get_fallback, dump_proxy, managed_keys}
use rdpproxy_v.Settings.Seed.{
  absent_from, patch_source, patch_row, seed_from, seed_fallback, seed_key,
}
use rdpproxy_v.Settings.Seed.Missing.{absent_from-has_no_repeats, get-absent_from_new}
use rdpproxy_v.Settings.Seed.Rounds.{seed_keys-at}
use rdpproxy_v.Settings.Seed.Kept.{first_load}
use rdpproxy_v.Settings.Seed.Service.{SettingsManager, load_settings}

-- With a row that has no public port, `load` reads the row as it is.
fresh_private :
    (d : Dict Json)
    → has (codes "public_port") d ≡ false
    → fresh (codes "proxy") (some (some d)) ≡ some d
unfolding loaded text_eq
fresh_private d h = rw h refl

-- `proxy_params` of a cached row.
params_of :
    (base : Base) (m : Manager) (raw : Dict Json)
    → m.cache (codes "proxy") ≡ some raw
    → (proxy_params base m).1
      ≡ or_default
          (get (codes "public_port") raw)
          (or_default (get (codes "listen_port") raw) (number base.public_port))
unfolding proxy_params
params_of base m raw h = rw (proxy_params, h) refl

once : (base : Base) → has_no_repeats (dump_proxy base) ≡ true
unfolding has_no_repeats has text_eq
once base = refl

module _ (cfg : AppConfig) (d : Dict Json) (h : has (codes "public_port") d ≡ false) where
  -- What the seeding adds to the row.
  port_added :
      get (codes "public_port") (merge d (absent_from d (dump_proxy cfg.base)))
      ≡ some (number cfg.base.public_port)
  unfolding get text_eq
  port_added =
      get-merge (codes "public_port") d _
        (absent_from-has_no_repeats d (dump_proxy cfg.base) (once cfg.base))
      ∙ (rw (get-absent_from_new (codes "public_port") d (dump_proxy cfg.base) h) refl)

  patched-proxy :
      (c : Crypto) (nonce : Bytes) (m : Manager)
      → m.db (codes "proxy") ≡ some (some d)
      → m.cache (codes "proxy") ≡ some d
      → (seed_key c cfg nonce none m (codes "proxy")).1.cache (codes "proxy")
        ≡ some (merge d (absent_from d (dump_proxy cfg.base)))
  unfolding seed_key get_fallback seed_fallback seed_from patch_source text_eq
  patched-proxy c nonce m row young = rw young (patch _ refl)
    where
      patch :
          (missing : Dict Json)
          → absent_from d (dump_proxy cfg.base) ≡ missing
          → (patch_row none m (codes "proxy") missing (m.db (codes "proxy"))).cache (codes "proxy")
            ≡ some (merge d missing)
      patch [] e = young
      patch (x ∷ missing) e = rw row refl

  module _ (c : Crypto) (nonce : Bytes) (on_db : Text → Option Error) where
    -- Where the row of proxy has a listen_port and no public_port, the services read that port until
    -- a first load that can read the table seeds it; then they read the public_port of the
    -- configuration file (if no exception of the table comes in that round).
    pub proxy_params-seeded :
        (s : SettingsManager) (port : Json)
        → s.seeded ≡ false
        → s.manager.db (codes "proxy") ≡ some (some d)
        → get (codes "listen_port") d ≡ some port
        → on_db (codes "proxy") ≡ none
        → ((proxy_params cfg.base (load s.manager)).1 ≡ port)
          × ((proxy_params cfg.base (load_settings c cfg nonce none on_db s).1.manager).1
              ≡ number cfg.base.public_port)
    unfolding load text_eq
    proxy_params-seeded s port unseeded row old quiet =
        let young : (load s.manager).cache (codes "proxy") ≡ some d =
          ap (fresh (codes "proxy")) row ∙ fresh_private d h in
        let (m', (before, after)) =
          seed_keys-at c cfg nonce on_db (codes "proxy") managed_keys (load s.manager) refl refl in
        let seeded = patched-proxy c nonce m' (before.0 ∙ row) (before.1 ∙ young) in
        (
          params_of cfg.base (load s.manager) d young
              ∙ (rw (get-absent (codes "public_port") d h) (rw old refl)),
          params_of cfg.base (load_settings c cfg nonce none on_db s).1.manager
                (merge d (absent_from d (dump_proxy cfg.base)))
                (ap (λ m. m.cache (codes "proxy")) (first_load cfg c nonce on_db s unseeded)
                  ∙ (after.1
                      ∙ (ap
                            (λ e.
                              (seed_key c cfg nonce e m' (codes "proxy")).1.cache (codes "proxy"))
                            quiet
                          ∙ seeded)))
              ∙ rw port_added refl,
        )
