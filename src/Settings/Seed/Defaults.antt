-- ===== src/Settings/Seed/Defaults.antt =====
-- What the configuration file adds to a row.
use rdpproxy_v.Prelude.{
  ◌≡◌, refl, sym, ap, ◌∙◌, inl, inr, Bool, true, false, Bool-cases, ◌⊎◌, Option, none, some, [],
  if◌then◌else◌,
}
use mathlib.Core.Path.{subst}
use rdpproxy_v.Prelude.Text.{Text, codes, text_eq, text_eq_iff}
use rdpproxy_v.Dict.{Dict, has, get, merge, pop}
use rdpproxy_v.Dict.Laws.{has-pop}
use rdpproxy_v.Dict.Lookup.{
  or_first, or_first-none, and_both, has_no_repeats, get-absent, get-present, get-merge,
  has-pop_other,
}
use rdpproxy_v.Settings.{Json, loaded}
use rdpproxy_v.Settings.Config.{LdapConfig, AppConfig, dumped, get_fallback, managed_keys}
use rdpproxy_v.Settings.Seed.{absent_from, patch_source}
use rdpproxy_v.Settings.Seed.Rounds.{listed}
use rdpproxy_v.Settings.Seed.Missing.{
  absent_from-has_no_repeats, get-absent_from_old, get-absent_from_new,
}
use rdpproxy_v.Settings.Seed.Service.{or_empty}

-- What the file has for a key, less the password of the directory.
unfoldable pub defaults : AppConfig → Text → Dict Json
unfolding patch_source get_fallback
defaults cfg key = patch_source key (or_empty (get_fallback cfg key))

choose : {A : Type 0} (P : A → Type 0) (b : Bool) (x y : A) → P x → P y → P (if b then x else y)
choose P true x y p q = p
choose P false x y p q = q

module _ (j : Text) (d : Dict Json) where
  -- The port of the proxy is all that `load` takes out.
  thinned :
      (b : Bool)
      → has j d ≡ true
      → has j (if b then pop (codes "listen_port") d else d) ≡ false
      → (b ≡ true) × (text_eq (codes "listen_port") j ≡ true)
  thinned false h n = absurd cc
  thinned true h n = (
    refl,
    elim (Bool-cases (text_eq (codes "listen_port") j)) [
      | inl e ↦ e
      | inr e ↦ absurd cc (has-pop_other j (codes "listen_port") d e)
    ],
  )

  within : (b : Bool) → has j (if b then pop (codes "listen_port") d else d) ≡ true → has j d ≡ true
  within false h = h
  within true h = elim (Bool-cases (text_eq (codes "listen_port") j)) [
    | inr e ↦ sym (has-pop_other j (codes "listen_port") d e) ∙ h
    | inl e ↦ absurd cc (
        sym (has-pop (codes "listen_port") d)
        ∙ (ap (λ x. has x (pop (codes "listen_port") d)) ((text_eq_iff (codes "listen_port") j).0 e)
            ∙ h))
  ]

  found : (f : Option Json) → has j d ≡ true → get j d ≡ or_first (get j d) f
  found f h = let (v, e) = get-present j d h in rw e refl

module _ (cfg : AppConfig) where
  NoRepeats : Option (Dict Json) → Type 0
  NoRepeats o = has_no_repeats (or_empty o) ≡ true

  pub defaults-has_no_repeats : (key : Text) → has_no_repeats (defaults cfg key) ≡ true
  unfolding defaults get_fallback patch_source has_no_repeats has pop text_eq NoRepeats
  defaults-has_no_repeats key = elim (Bool-cases (text_eq key (codes "ldap"))) [
    | inl e ↦
        subst (λ k. has_no_repeats (defaults cfg k) ≡ true)
          (sym ((text_eq_iff key (codes "ldap")).0 e)) (ldap cfg.ldap)
    | inr e ↦ rw e (
        choose NoRepeats (text_eq key (codes "dns")) _ _ refl (
          choose NoRepeats (text_eq key (codes "proxy")) _ _ refl (
            choose NoRepeats (text_eq key (codes "security")) _ _ refl (
              choose NoRepeats (text_eq key (codes "redis_ttl")) _ _ refl (
                choose NoRepeats (text_eq key (codes "relay")) _ _ refl
                  (choose NoRepeats (text_eq key (codes "portal")) _ _ refl refl))))))
  ]
    where
      ldap :
          (o : Option LdapConfig)
          → has_no_repeats (patch_source (codes "ldap") (or_empty (dumped o))) ≡ true
      ldap none = refl
      ldap (some l) = refl

  -- A key that is not managed has no defaults.
  pub unmanaged : (key : Text) → listed key managed_keys ≡ false → get_fallback cfg key ≡ none
  unfolding get_fallback text_eq
  unmanaged key h =
      rw
        (
          apart (codes "ldap") refl,
          apart (codes "dns") refl,
          apart (codes "proxy") refl,
          apart (codes "security") refl,
          apart (codes "redis_ttl") refl,
          apart (codes "relay") refl,
          apart (codes "portal") refl,
        )
        refl
    where
      apart : (k : Text) → listed k managed_keys ≡ true → text_eq key k ≡ false
      apart k q = elim (Bool-cases (text_eq key k)) [
        | inr e ↦ e
        | inl e ↦ absurd cc (ap (λ x. listed x managed_keys) ((text_eq_iff key k).0 e))
      ]

  pub patch_source_empty : (key : Text) → patch_source key [] ≡ []
  unfolding patch_source
  patch_source_empty key = choose (λ d. d ≡ []) (text_eq key (codes "ldap")) _ _ refl refl

  -- What `load` takes out of a row, the file does not have.
  taken_out :
      (key j : Text) (d : Dict Json)
      → has j d ≡ true
      → has j (loaded key d) ≡ false
      → get j (defaults cfg key) ≡ none
  unfolding loaded defaults get_fallback patch_source get text_eq
  taken_out key j d h n =
      let (p, q) = thinned j d _ h n in
      subst (λ x. get x (defaults cfg key) ≡ none) ((text_eq_iff (codes "listen_port") j).0 q)
        (subst (λ k. get (codes "listen_port") (defaults cfg k) ≡ none)
          (sym ((text_eq_iff key (codes "proxy")).0 (and_both (text_eq key (codes "proxy")) _ p).0))
          refl)

  within_row : (key j : Text) (d : Dict Json) → has j (loaded key d) ≡ true → has j d ≡ true
  unfolding loaded
  within_row key j d h = within j d _ h

  -- A row with what is missing in the cache.
  pub get-patched :
      (key j : Text) (d : Dict Json)
      → get j (merge d (absent_from (loaded key d) (defaults cfg key)))
        ≡ or_first (get j d) (get j (defaults cfg key))
  get-patched key j d =
      get-merge j d _ (absent_from-has_no_repeats (loaded key d) _ (defaults-has_no_repeats key))
      ∙ at (Bool-cases (has j (loaded key d))) (Bool-cases (has j d))
    where
      at :
          (has j (loaded key d) ≡ true) ⊎ (has j (loaded key d) ≡ false)
          → (has j d ≡ true) ⊎ (has j d ≡ false)
          → or_first (get j (absent_from (loaded key d) (defaults cfg key))) (get j d)
            ≡ or_first (get j d) (get j (defaults cfg key))
      at (inl p) q =
          rw (get-absent_from_old j (loaded key d) (defaults cfg key) p)
            (found j d (get j (defaults cfg key)) (within_row key j d p))
      at (inr p) (inr q) = rw (get-absent j d q) (
          rw (get-absent_from_new j (loaded key d) (defaults cfg key) p)
            (or_first-none (get j (defaults cfg key))))
      at (inr p) (inl q) =
          rw (get-absent_from_new j (loaded key d) (defaults cfg key) p)
            (rw (taken_out key j d q p) (sym (or_first-none (get j d))))
