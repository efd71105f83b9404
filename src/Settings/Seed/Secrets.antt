-- ===== src/Settings/Seed/Secrets.antt =====
-- Services at one table: what is done to it and to a cache, in any order, and the password.
use rdpproxy_v.Prelude.{
  ◌≡◌, refl, sym, ap, ◌∙◌, inl, inr, false, Bool-cases, Option, none, some, List, [], ◌∷◌,
}
use mathlib.Core.Path.{subst}
use rdpproxy_v.Prelude.Text.{Bytes, Text, codes, text_eq, text_eq_iff}
use rdpproxy_v.Errors.{Error, Result, ok, err}
use rdpproxy_v.Crypto.{Crypto}
use rdpproxy_v.Dict.{Dict, has, merge}
use rdpproxy_v.Dict.Laws.{has-merge, has-pop}
use rdpproxy_v.Settings.{Json, Manager, loaded, fresh, load}
use rdpproxy_v.Settings.Secret.{
  secret, has_secret, HasNoSecret, cached_secret, HasNoSecretCached, Sealed, to_store-Sealed,
}
use rdpproxy_v.Settings.Config.{AppConfig, get_fallback}
use rdpproxy_v.Settings.Seed.{
  patch_source, add_row, patch_row, seed_missing, and_then, seed_from, seed_fallback, seed_key,
  seed_keys,
}
use rdpproxy_v.Settings.Seed.Missing.{has-absent_from}
use rdpproxy_v.Settings.Seed.Rounds.{seed_key-other}

-- Neither the table nor the cache has the password of the directory as it is.
abbrev pub SecretFree : Manager → Type 0
SecretFree m = HasNoSecret m × HasNoSecretCached m

-- `load` reads what the table has.
pub load-SecretFree : (m : Manager) → HasNoSecret m → SecretFree (load m)
unfolding load loaded text_eq
load-SecretFree m h = (h, at (m.db (codes "ldap")) h)
  where
    at :
        (o : Option (Option (Dict Json)))
        → has_secret o ≡ false
        → cached_secret (fresh (codes "ldap") o) ≡ false
    at none h = refl
    at (some none) h = refl
    at (some (some d)) h = h

add_row-SecretFree :
    (e : Option Error) (m : Manager) (v : Dict Json) (row : Option (Option (Dict Json)))
    → has secret v ≡ false
    → SecretFree m
    → SecretFree (add_row e m (codes "ldap") v row)
unfolding text_eq
add_row-SecretFree none m v none h n = (h, h)
add_row-SecretFree none m v (some r) h n = n
add_row-SecretFree (some e) m v row h n = n

patch_row-SecretFree :
    (e : Option Error) (m : Manager) (missing : Dict Json) (row : Option (Option (Dict Json)))
    → has secret missing ≡ false
    → has_secret row ≡ false
    → SecretFree m
    → SecretFree (patch_row e m (codes "ldap") missing row)
unfolding patch_row text_eq
patch_row-SecretFree (some e) m missing row h r n = n
patch_row-SecretFree none m [] row h r n = n
patch_row-SecretFree none m (x ∷ missing) none h r n = n
patch_row-SecretFree none m (x ∷ missing) (some none) h r n = n
patch_row-SecretFree none m (x ∷ missing) (some (some d)) h r n =
    let both : has secret (merge d (x ∷ missing)) ≡ false =
      has-merge secret d (x ∷ missing) ∙ rw (r, h) refl in
    (both, both)

module _ (c : Crypto) (cfg : AppConfig) (nonce : Bytes) where
  seed_missing-SecretFree :
      (e : Option Error) (m : Manager) (r : Result (Dict Json))
      → Sealed r
      → SecretFree m
      → SecretFree (seed_missing e m (codes "ldap") r).1
  unfolding Sealed
  seed_missing-SecretFree e m (err x) h n = n
  seed_missing-SecretFree e m (ok v) h n = add_row-SecretFree e m v (m.db (codes "ldap")) h n

  seed_from-SecretFree :
      (e : Option Error) (m : Manager) (fallback : Dict Json) (cached : Option (Dict Json))
      → SecretFree m
      → SecretFree (seed_from c cfg nonce e m (codes "ldap") fallback cached).1
  unfolding seed_from patch_source text_eq
  seed_from-SecretFree e m fallback none n =
      seed_missing-SecretFree e m _ (to_store-Sealed c nonce fallback) n
  seed_from-SecretFree e m fallback (some cached) n =
      patch_row-SecretFree e m _ (m.db (codes "ldap"))
        (has-absent_from secret cached _ (has-pop secret fallback)) n.0 n

  seed_fallback-SecretFree :
      (e : Option Error) (m : Manager) (o : Option (Dict Json))
      → SecretFree m
      → SecretFree (seed_fallback c cfg nonce e m (codes "ldap") o).1
  unfolding seed_fallback
  seed_fallback-SecretFree e m none n = n
  seed_fallback-SecretFree e m (some []) n = n
  seed_fallback-SecretFree e m (some (x ∷ f)) n =
      seed_from-SecretFree e m (x ∷ f) (m.cache (codes "ldap")) n

  seed_key-SecretFree :
      (e : Option Error) (m : Manager) (key : Text)
      → SecretFree m
      → SecretFree (seed_key c cfg nonce e m key).1
  unfolding seed_key
  seed_key-SecretFree e m key n = elim (Bool-cases (text_eq key (codes "ldap"))) [
    | inr q ↦
        (let (p, p') = seed_key-other (codes "ldap") key q c cfg nonce e m in
          (ap has_secret p ∙ n.0, ap cached_secret p' ∙ n.1))
    | inl q ↦
        subst (λ k. SecretFree (seed_key c cfg nonce e m k).1)
          (sym ((text_eq_iff key (codes "ldap")).0 q))
          (seed_fallback-SecretFree e m (get_fallback cfg (codes "ldap")) n)
  ]

  and_then-SecretFree :
      (r : Result (Unit {0}) × Manager) (rest : Manager → Result (Unit {0}) × Manager)
      → SecretFree r.1
      → ((m : Manager) → SecretFree m → SecretFree (rest m).1)
      → SecretFree (and_then r rest).1
  and_then-SecretFree (err e, m) rest n h = n
  and_then-SecretFree (ok u, m) rest n h = h m n

  pub seed_keys-SecretFree :
      (on_db : Text → Option Error) (ks : List Text) (m : Manager)
      → SecretFree m
      → SecretFree (seed_keys c cfg nonce on_db ks m).1
  unfolding seed_keys
  seed_keys-SecretFree on_db [] m n = n
  seed_keys-SecretFree on_db (k ∷ ks) m n =
      and_then-SecretFree (seed_key c cfg nonce (on_db k) m k) (seed_keys c cfg nonce on_db ks)
        (seed_key-SecretFree (on_db k) m k n) (seed_keys-SecretFree on_db ks)
