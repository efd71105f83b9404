-- ===== src/Settings/Secret.antt =====
-- The password of the directory's account is not in the table as it is.
use rdpproxy_v.Prelude.{
  zero, suc, ◌≡◌, refl, sym, ap, ◌∙◌, inl, inr, Bool, true, false, Bool-cases, Option, none, some,
  [], ◌∷◌,
}
use mathlib.Core.Path.{subst}
use rdpproxy_v.Prelude.Int.{pos, negsuc}
use rdpproxy_v.Prelude.Text.{Bytes, Text, codes, text_eq, text_eq_iff}
use rdpproxy_v.Errors.{Error, Result, ok, err}
use rdpproxy_v.Crypto.{Crypto}
use rdpproxy_v.Dict.{Dict, has, get}
use rdpproxy_v.Dict.Laws.{has-set, has-merge, has-pop, missing}
use rdpproxy_v.Settings.{
  Json, null, text, number, flag, texts, Manager, without_listen, stored, cached, seal_password,
  seal_found, to_store, committed, save_stored, save,
}

abbrev pub secret : Text
secret = codes "bind_password"

abbrev pub sealed_entry : Text
sealed_entry = codes "bind_password_enc"

-- A dict without the password, or an exception.
unfoldable pub Sealed : Result (Dict Json) → Type 0
Sealed (ok s) = has secret s ≡ false
Sealed (err e) = Unit

-- Whether a row has the password in it.
abbrev pub has_secret : Option (Option (Dict Json)) → Bool
has_secret (some (some d)) = has secret d
has_secret _ = false

-- The row of `ldap` has no password in it.
abbrev pub HasNoSecret : Manager → Type 0
HasNoSecret m = has_secret (m.db (codes "ldap")) ≡ false

-- Whether a cached setting has it.
abbrev pub cached_secret : Option (Dict Json) → Bool
cached_secret (some d) = has secret d
cached_secret none = false

-- The cached setting of `ldap` has no password in it.
abbrev pub HasNoSecretCached : Manager → Type 0
HasNoSecretCached m = cached_secret (m.cache (codes "ldap")) ≡ false

module _ (c : Crypto) where
  seal_password-Sealed :
      (nonce : Bytes) (pwd : Json) (rest : Dict Json)
      → has secret rest ≡ false
      → Sealed (seal_password c nonce pwd rest)
  unfolding seal_password Sealed text_eq
  seal_password-Sealed nonce null rest h = h
  seal_password-Sealed nonce (flag false) rest h = h
  seal_password-Sealed nonce (flag true) rest h = tt
  seal_password-Sealed nonce (number (pos zero)) rest h = h
  seal_password-Sealed nonce (number (pos (suc n))) rest h = tt
  seal_password-Sealed nonce (number (negsuc n)) rest h = tt
  seal_password-Sealed nonce (texts []) rest h = h
  seal_password-Sealed nonce (texts (t ∷ ts)) rest h = tt
  seal_password-Sealed nonce (text []) rest h = h
  seal_password-Sealed nonce (text (x ∷ t)) rest h =
      has-set secret (codes "bind_password_enc") _ rest ∙ (rw h apart)
    where
      apart : text_eq (codes "bind_password_enc") secret ≡ false
      apart = refl

  seal_found-Sealed :
      (nonce : Bytes) (value : Dict Json) (o : Option Json)
      → get secret value ≡ o
      → Sealed (seal_found c nonce value o)
  unfolding seal_found Sealed
  seal_found-Sealed nonce value none h = missing secret value h
  seal_found-Sealed nonce value (some pwd) h =
      seal_password-Sealed nonce pwd _ (has-pop secret value)

  pub to_store-Sealed :
      (nonce : Bytes) (value : Dict Json) → Sealed (to_store c nonce (codes "ldap") value)
  unfolding to_store text_eq
  to_store-Sealed nonce value = seal_found-Sealed nonce value (get secret value) refl

  stored_sealed :
      (s : Dict Json) (m : Manager)
      → has secret s ≡ false
      → HasNoSecret m
      → has secret (stored (codes "ldap") s (m.db (codes "ldap"))) ≡ false
  unfolding stored without_listen text_eq
  stored_sealed s m h n = at (m.db (codes "ldap")) refl
    where
      at :
          (o : Option (Option (Dict Json)))
          → m.db (codes "ldap") ≡ o
          → has secret (stored (codes "ldap") s o) ≡ false
      at none e = h
      at (some none) e = h
      at (some (some d)) e = has-merge secret d s ∙ rw (sym (ap has_secret e) ∙ n, h) refl

  committed-HasNoSecret :
      (m : Manager) (key : Text) (s : Dict Json)
      → (text_eq key (codes "ldap") ≡ true → has secret s ≡ false)
      → HasNoSecret m
      → HasNoSecret (committed c m key s)
  committed-HasNoSecret m key s h n = elim (Bool-cases (text_eq key (codes "ldap"))) [
    | inr q ↦ rw q n
    | inl q ↦ rw q (
        subst (λ k. has secret (stored k s (m.db k)) ≡ false)
          (sym ((text_eq_iff key (codes "ldap")).0 q)) (stored_sealed s m (h q) n))
  ]

  save_stored-HasNoSecret :
      (on_commit : Option Error) (m : Manager) (key : Text) (r : Result (Dict Json))
      → (text_eq key (codes "ldap") ≡ true → Sealed r)
      → HasNoSecret m
      → HasNoSecret (save_stored c on_commit m key r).1
  unfolding save_stored Sealed
  save_stored-HasNoSecret on_commit m key (err e) h n = n
  save_stored-HasNoSecret (some e) m key (ok s) h n = n
  save_stored-HasNoSecret none m key (ok s) h n = committed-HasNoSecret m key s h n

  cached_sealed :
      (s : Dict Json) (m : Manager)
      → has secret s ≡ false
      → HasNoSecretCached m
      → has secret (cached (codes "ldap") s (m.cache (codes "ldap"))) ≡ false
  unfolding cached without_listen text_eq
  cached_sealed s m h n = at (m.cache (codes "ldap")) refl
    where
      at :
          (o : Option (Dict Json))
          → m.cache (codes "ldap") ≡ o
          → has secret (cached (codes "ldap") s o) ≡ false
      at none e = h
      at (some d) e = has-merge secret d s ∙ rw (sym (ap cached_secret e) ∙ n, h) refl

  committed-HasNoSecretCached :
      (m : Manager) (key : Text) (s : Dict Json)
      → (text_eq key (codes "ldap") ≡ true → has secret s ≡ false)
      → HasNoSecretCached m
      → HasNoSecretCached (committed c m key s)
  committed-HasNoSecretCached m key s h n = elim (Bool-cases (text_eq key (codes "ldap"))) [
    | inr q ↦ rw q n
    | inl q ↦ rw q (
        subst (λ k. has secret (cached k s (m.cache k)) ≡ false)
          (sym ((text_eq_iff key (codes "ldap")).0 q)) (cached_sealed s m (h q) n))
  ]

  save_stored-HasNoSecretCached :
      (on_commit : Option Error) (m : Manager) (key : Text) (r : Result (Dict Json))
      → (text_eq key (codes "ldap") ≡ true → Sealed r)
      → HasNoSecretCached m
      → HasNoSecretCached (save_stored c on_commit m key r).1
  unfolding save_stored Sealed
  save_stored-HasNoSecretCached on_commit m key (err e) h n = n
  save_stored-HasNoSecretCached (some e) m key (ok s) h n = n
  save_stored-HasNoSecretCached none m key (ok s) h n = committed-HasNoSecretCached m key s h n

  stored_value-Sealed :
      (nonce : Bytes) (key : Text) (value : Dict Json)
      → text_eq key (codes "ldap") ≡ true
      → Sealed (to_store c nonce key value)
  stored_value-Sealed nonce key value q =
      subst (λ k. Sealed (to_store c nonce k value)) (sym ((text_eq_iff key (codes "ldap")).0 q))
        (to_store-Sealed nonce value)

  -- No save of any setting puts the entry bind_password into the row of ldap, if it is not there,
  -- whatever value is saved and whether the save succeeds or fails.
  pub save-HasNoSecret :
      (nonce : Bytes) (on_commit : Option Error) (m : Manager) (key : Text) (value : Dict Json)
      → HasNoSecret m
      → HasNoSecret (save c nonce on_commit m key value).1
  unfolding save
  save-HasNoSecret nonce on_commit m key value n =
      save_stored-HasNoSecret on_commit m key (to_store c nonce key value)
        (stored_value-Sealed nonce key value) n

  -- Nor into the cache, if the cache has it not.
  pub save-HasNoSecretCached :
      (nonce : Bytes) (on_commit : Option Error) (m : Manager) (key : Text) (value : Dict Json)
      → HasNoSecretCached m
      → HasNoSecretCached (save c nonce on_commit m key value).1
  unfolding save
  save-HasNoSecretCached nonce on_commit m key value n =
      save_stored-HasNoSecretCached on_commit m key (to_store c nonce key value)
        (stored_value-Sealed nonce key value) n
