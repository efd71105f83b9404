-- ===== src/Settings.antt =====
-- libs/config/settings_manager.py: the settings in the database, and the cache in front of them.
-- Settings.Seed has the seeding, the hooks and the messages; the clock is left to the caller.
pub mod Sync
pub mod Secret
pub mod Params
pub mod Config
pub mod Seed
pub mod ReadBack
pub mod Views
mod Tests
use rdpproxy_v.Prelude.{
  zero, Bool, true, false, ◌&&◌, Option, none, some, List, [], ◌∷◌, if◌then◌else◌,
}
use rdpproxy_v.Prelude.Int.{ℤ, pos}
use rdpproxy_v.Prelude.Text.{Bytes, Text, codes, text_eq, non_empty}
use rdpproxy_v.Errors.{Error, Result, ok, err, other_error, map_result}
use rdpproxy_v.Crypto.{Crypto, encrypt, decrypt}
use rdpproxy_v.Dict.{Dict, has, get, set, merge, pop}

-- The values of a setting's JSON.
pub data Json : Type 0 where
  null : Json
  text : Text → Json
  number : ℤ → Json
  flag : Bool → Json
  texts : List Text → Json

-- The table, in which a row may hold something that is no dict, and the cache.
pub record Manager : Type 0 where
  pub db : Text → Option (Option (Dict Json))
  pub cache : Text → Option (Dict Json)

abbrev pub secret_aad : Bytes
secret_aad = codes "portal_settings:ldap:bind_password"

abbrev pub put : {A : Type 0} → (Text → A) → Text → A → Text → A
put f key a j = if text_eq key j then a else f j

-- What `load` makes of the row of a key.
unfoldable pub loaded : Text → Dict Json → Dict Json
unfolding has pop
loaded key d =
    if text_eq key (codes "proxy") && (has (codes "public_port") d && has (codes "listen_port") d)
    then pop (codes "listen_port") d
    else d

abbrev pub fresh : Text → Option (Option (Dict Json)) → Option (Dict Json)
fresh key (some (some d)) = some (loaded key d)
fresh key _ = none

-- `load`, without the seeding of an empty table.
unfoldable pub load : Manager → Manager
unfolding loaded
load m = record m { cache = λ key. fresh key (m.db key) }

-- What `save` leaves of a dict that is to be stored with `store_value`.
unfoldable pub without_listen : (key : Text) (store_value d : Dict Json) → Dict Json
unfolding has pop
without_listen key store_value d =
    if text_eq key (codes "proxy") && has (codes "public_port") store_value
    then pop (codes "listen_port") d
    else d

unfoldable pub stored :
    (key : Text) (store_value : Dict Json) → Option (Option (Dict Json)) → Dict Json
unfolding without_listen merge
stored key store_value none = without_listen key store_value store_value
stored key store_value (some none) = store_value
stored key store_value (some (some d)) = without_listen key store_value (merge d store_value)

unfoldable pub cached : (key : Text) (store_value : Dict Json) → Option (Dict Json) → Dict Json
unfolding without_listen merge
cached key store_value none = without_listen key store_value store_value
cached key store_value (some d) = without_listen key store_value (merge d store_value)

module _ (c : Crypto) where
  -- `if pwd:`; a password that is no text is refused by the encryption.
  unfoldable pub seal_password : (nonce : Bytes) → Json → (rest : Dict Json) → Result (Dict Json)
  unfolding encrypt set
  seal_password nonce null rest = ok rest
  seal_password nonce (flag false) rest = ok rest
  seal_password nonce (number (pos zero)) rest = ok rest
  seal_password nonce (texts []) rest = ok rest
  seal_password nonce (text t) rest =
      if non_empty t
      then ok (set (codes "bind_password_enc") (text (encrypt c nonce t secret_aad)) rest)
      else ok rest
  seal_password nonce _ rest = err other_error

  unfoldable pub seal_found : (nonce : Bytes) → Dict Json → Option Json → Result (Dict Json)
  unfolding seal_password pop
  seal_found nonce value none = ok value
  seal_found nonce value (some pwd) = seal_password nonce pwd (pop (codes "bind_password") value)

  -- `store_value`, with the secret encrypted.
  unfoldable pub to_store : (nonce : Bytes) (key : Text) → Dict Json → Result (Dict Json)
  unfolding seal_found get
  to_store nonce key value =
      if text_eq key (codes "ldap")
      then seal_found nonce value (get (codes "bind_password") value)
      else ok value

  abbrev pub committed : Manager → Text → Dict Json → Manager
  committed m key store_value = record {
    db = put m.db key (some (some (stored key store_value (m.db key))));
    cache = put m.cache key (some (cached key store_value (m.cache key)));
  }

  unfoldable pub save_stored :
      Option Error → Manager → Text → Result (Dict Json) → Result (Unit {0}) × Manager
  unfolding stored cached
  save_stored on_commit m key (err e) = (err e, m)
  save_stored (some e) m key (ok store_value) = (err e, m)
  save_stored none m key (ok store_value) = (ok tt, committed m key store_value)

  -- `on_commit` is the exception of the session, if there is one.
  unfoldable pub save :
      (nonce : Bytes) (on_commit : Option Error)
      → Manager
      → Text
      → Dict Json
      → Result (Unit {0}) × Manager
  unfolding save_stored to_store
  save nonce on_commit m key value = save_stored on_commit m key (to_store nonce key value)

  unfoldable pub opened : Dict Json → Option Json → Result (Dict Json)
  unfolding decrypt set pop
  opened raw none = ok raw
  opened raw (some (text blob)) =
      map_result (λ t. set (codes "bind_password") (text t) (pop (codes "bind_password_enc") raw))
        (decrypt c blob secret_aad)
  opened raw (some _) = err other_error

  -- `get` while the cache is young; `fallback` is what the configuration file has.
  unfoldable pub get_setting : (fallback : Text → Dict Json) → Manager → Text → Result (Dict Json)
  unfolding opened get
  get_setting fallback m key = elim (m.cache key) [
    | none ↦ ok (fallback key)
    | some raw ↦
        if text_eq key (codes "ldap")
        then opened raw (get (codes "bind_password_enc") raw)
        else ok raw
  ]
