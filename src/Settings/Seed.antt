-- ===== src/Settings/Seed.antt =====
-- libs/config/settings_manager.py: the seeding of the table from the configuration file, and the
-- manager with it.
pub mod Service
pub mod Rounds
pub mod Missing
pub mod Defaults
pub mod Kept
pub mod Legacy
pub mod Hooks
pub mod Secrets
pub mod Steps
mod Tests
use rdpproxy_v.Prelude.{Option, none, some, List, [], ◌∷◌, if◌then◌else◌}
use rdpproxy_v.Prelude.Text.{Bytes, Text, codes, text_eq}
use rdpproxy_v.Errors.{Error, Result, ok, err}
use rdpproxy_v.Crypto.{Crypto}
use rdpproxy_v.Dict.{Dict, has, merge, pop}
use rdpproxy_v.Settings.{Json, Manager, put, to_store}
use rdpproxy_v.Settings.Config.{AppConfig, get_fallback}

-- `{k: v for k, v in patch_source.items() if k not in cached}`
unfoldable pub absent_from : (cached patch_source : Dict Json) → Dict Json
unfolding has
absent_from cached [] = []
absent_from cached ((k, v) ∷ d) =
    let rest = absent_from cached d in if has k cached then rest else (k, v) ∷ rest

unfoldable pub patch_source : (key : Text) (fallback : Dict Json) → Dict Json
unfolding pop
patch_source key fallback =
    if text_eq key (codes "ldap") then pop (codes "bind_password") fallback else fallback

-- A key that the cache does not have, over the row that the table has by now; `on_db` is what the
-- session raises, if it does, which is only logged.
abbrev pub add_row :
    (on_db : Option Error)
    → Manager
    → (key : Text) → (store_value : Dict Json) → (existing : Option (Option (Dict Json))) → Manager
add_row none m key store_value none = record {
  db = put m.db key (some (some store_value));
  cache = put m.cache key (some store_value);
}
add_row _ m key store_value _ = m

abbrev pub patched : Manager → (key : Text) → (row : Dict Json) → Manager
patched m key row = record {
  db = put m.db key (some (some row));
  cache = put m.cache key (some row);
}

-- A key that it has, of which entries are missing.
unfoldable pub patch_row :
    (on_db : Option Error)
    → Manager
    → (key : Text) → (missing : Dict Json) → (row : Option (Option (Dict Json))) → Manager
unfolding merge
patch_row none m key (e ∷ missing) (some (some d)) = patched m key (merge d (e ∷ missing))
patch_row _ m key missing row = m

abbrev pub seed_missing :
    (on_db : Option Error)
    → Manager
    → (key : Text) → Result (Dict Json)
    → Result (Unit {0}) × Manager
seed_missing on_db m key (err e) = (err e, m)
seed_missing on_db m key (ok store_value) = (ok tt, add_row on_db m key store_value (m.db key))

-- An exception leaves the loop.
abbrev pub and_then :
    Result (Unit {0}) × Manager
    → (Manager → Result (Unit {0}) × Manager)
    → Result (Unit {0}) × Manager
and_then (err e, m) rest = (err e, m)
and_then (ok _, m) rest = rest m

module _ (c : Crypto) (cfg : AppConfig) where
  unfoldable pub seed_from :
      (nonce : Bytes) (on_db : Option Error)
      → Manager
      → (key : Text) (fallback : Dict Json) → (cached : Option (Dict Json))
      → Result (Unit {0}) × Manager
  unfolding to_store patch_row absent_from patch_source
  seed_from nonce on_db m key fallback none =
      seed_missing on_db m key (to_store c nonce key fallback)
  seed_from nonce on_db m key fallback (some cached) =
      (ok tt, patch_row on_db m key (absent_from cached (patch_source key fallback)) (m.db key))

  -- A fallback that is None or empty is passed over.
  unfoldable pub seed_fallback :
      (nonce : Bytes) (on_db : Option Error)
      → Manager
      → (key : Text) → Option (Dict Json)
      → Result (Unit {0}) × Manager
  unfolding seed_from
  seed_fallback nonce on_db m key (some (e ∷ fallback)) =
      seed_from nonce on_db m key (e ∷ fallback) (m.cache key)
  seed_fallback nonce on_db m key _ = (ok tt, m)

  -- One round of the loop; the key and its session are the round's own.
  unfoldable pub seed_key :
      (nonce : Bytes) (on_db : Option Error) → Manager → (key : Text) → Result (Unit {0}) × Manager
  unfolding seed_fallback get_fallback
  seed_key nonce on_db m key = seed_fallback nonce on_db m key (get_fallback cfg key)

  unfoldable pub seed_keys :
      (nonce : Bytes) (on_db : Text → Option Error)
      → List Text
      → Manager
      → Result (Unit {0}) × Manager
  unfolding seed_key
  seed_keys nonce on_db [] m = (ok tt, m)
  seed_keys nonce on_db (key ∷ keys) m =
      and_then (seed_key nonce (on_db key) m key) (seed_keys nonce on_db keys)
