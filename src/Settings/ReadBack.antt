-- ===== src/Settings/ReadBack.antt =====
-- A saved setting is read back, the password of the directory through its encryption.
use rdpproxy_v.Prelude.{◌≡◌, refl, sym, ap, ◌∙◌, true, false, Option, none, some, length, []}
use rdpproxy_v.Prelude.Text.{Bytes, Text, codes, text_eq, non_empty}
use rdpproxy_v.Errors.{ok}
use rdpproxy_v.Crypto.{Crypto, encrypt, decrypt-encrypt}
use rdpproxy_v.Dict.{Dict, get, set, pop}
use rdpproxy_v.Dict.Lookup.{
  or_first, or_first-none, has_no_repeats, get-set, get-merge, get-pop_other, pop-has_no_repeats,
  set-has_no_repeats,
}
use rdpproxy_v.Settings.{
  Json, text, Manager, secret_aad, without_listen, cached, seal_password, seal_found, to_store,
  committed, save_stored, save, opened, get_setting,
}
use rdpproxy_v.Settings.Secret.{secret, sealed_entry}

-- What is cached for a key, as a dict.
abbrev pub entries : Option (Dict Json) → Dict Json
entries none = []
entries (some d) = d

module _ (c : Crypto) (nonce : Bytes) (password : Text) where
  -- The value as it is stored.
  sealed : Dict Json → Dict Json
  sealed value = set sealed_entry (text (encrypt c nonce password secret_aad)) (pop secret value)

  to_store-sealed :
      (value : Dict Json)
      → get secret value ≡ some (text password)
      → non_empty password ≡ true
      → to_store c nonce (codes "ldap") value ≡ ok (sealed value)
  unfolding to_store seal_found seal_password sealed text_eq
  to_store-sealed value had long = rw had (rw long refl)

  module _ (value : Dict Json) (once : has_no_repeats value ≡ true) where
    sealed_once : has_no_repeats (sealed value) ≡ true
    unfolding sealed
    sealed_once =
        set-has_no_repeats sealed_entry _ (pop secret value) (pop-has_no_repeats secret value once)

    get-sealed_blob :
        get sealed_entry (sealed value) ≡ some (text (encrypt c nonce password secret_aad))
    unfolding sealed text_eq
    get-sealed_blob = get-set sealed_entry sealed_entry _ (pop secret value)

    get-sealed_other :
        (j : Text)
        → text_eq secret j ≡ false
        → text_eq sealed_entry j ≡ false
        → get j (sealed value) ≡ get j value
    unfolding sealed
    get-sealed_other j p q =
        get-set j sealed_entry _ (pop secret value) ∙ rw q (get-pop_other j secret value p)

    -- What is then cached: the old entries under the new ones.
    get-cached :
        (j : Text) (old : Option (Dict Json))
        → get j (cached (codes "ldap") (sealed value) old)
          ≡ or_first (get j (sealed value)) (get j (entries old))
    unfolding cached without_listen get text_eq
    get-cached j none = sym (or_first-none (get j (sealed value)))
    get-cached j (some raw) = get-merge j raw (sealed value) sealed_once

    -- What `get` makes of the cached setting.
    opened_setting : Dict Json → Dict Json
    opened_setting raw = set secret (text password) (pop sealed_entry raw)

    get_setting_sealed :
        (fallback : Text → Dict Json) (m : Manager) (raw : Dict Json)
        → length nonce ≡ 12
        → m.cache (codes "ldap") ≡ some raw
        → get sealed_entry raw ≡ some (text (encrypt c nonce password secret_aad))
        → get_setting c fallback m (codes "ldap") ≡ ok (opened_setting raw)
    unfolding get_setting opened opened_setting text_eq
    get_setting_sealed fallback m raw twelve young had =
        rw (get_setting, young)
          (rw had (rw (decrypt-encrypt c nonce password secret_aad twelve) refl))

    get-opened_setting :
        (j : Text) (raw : Dict Json)
        → text_eq secret j ≡ false
        → text_eq sealed_entry j ≡ false
        → get j (opened_setting raw) ≡ get j raw
    unfolding opened_setting
    get-opened_setting j raw p q =
        get-set j secret _ (pop sealed_entry raw) ∙ rw p (get-pop_other j sealed_entry raw q)

    pub save_ok :
        (m : Manager)
        → get secret value ≡ some (text password)
        → non_empty password ≡ true
        → (save c nonce none m (codes "ldap") value).0 ≡ ok tt
    unfolding save save_stored
    save_ok m had long =
        ap (λ r. (save_stored c none m (codes "ldap") r).0) (to_store-sealed value had long)

    -- A save of ldap with a password that is no empty text (and no key twice, a nonce of 12 bytes and
    -- a commit that goes through) is read back: the password as it was given, and under any key other
    -- than the two of the password what the value has, before what was cached.
    pub get_setting-save :
        (fallback : Text → Dict Json) (m : Manager) (j : Text)
        → length nonce ≡ 12
        → get secret value ≡ some (text password)
        → non_empty password ≡ true
        → text_eq secret j ≡ false
        → text_eq sealed_entry j ≡ false
        → (d : Dict Json) × ((get_setting c fallback
                (save c nonce none m (codes "ldap") value).1
                (codes "ldap")
              ≡ ok d)
            × ((get secret d ≡ some (text password))
                × (get j d ≡ or_first (get j value) (get j (entries (m.cache (codes "ldap")))))))
    unfolding save save_stored opened_setting text_eq
    get_setting-save fallback m j twelve had long p q = (
      opened_setting raw,
      (
        ap (λ r. get_setting c fallback (save_stored c none m (codes "ldap") r).1 (codes "ldap"))
              (to_store-sealed value had long)
            ∙ get_setting_sealed fallback (committed c m (codes "ldap") (sealed value)) raw twelve
                refl (get-cached sealed_entry (m.cache (codes "ldap")) ∙ rw get-sealed_blob refl),
        (
          get-set secret secret (text password) (pop sealed_entry raw),
          get-opened_setting j raw p q
              ∙ (get-cached j (m.cache (codes "ldap"))
                  ∙ ap (λ x. or_first x (get j (entries (m.cache (codes "ldap")))))
                      (get-sealed_other j p q)),
        ),
      ),
    )
      where
        raw : Dict Json
        raw = cached (codes "ldap") (sealed value) (m.cache (codes "ldap"))
