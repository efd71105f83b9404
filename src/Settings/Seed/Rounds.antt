-- ===== src/Settings/Seed/Rounds.antt =====
-- The rounds of the seeding: each is about its own key, and all of them are made.
use rdpproxy_v.Prelude.{
  ◌≡◌, refl, sym, ap, ◌∙◌, inl, inr, Bool, true, false, Bool-cases, not, ◌&&◌, ◌||◌, Option, none,
  some, List, [], ◌∷◌,
}
use mathlib.Core.Path.{subst}
use rdpproxy_v.Prelude.Text.{Bytes, Text, codes, text_eq, text_eq_iff}
use rdpproxy_v.Errors.{Error, Result, ok, err}
use rdpproxy_v.Crypto.{Crypto}
use mathlib.Core.Option.{some-injective}
use rdpproxy_v.Dict.{Dict, get, pop}
use rdpproxy_v.Dict.Laws.{or_none}
use rdpproxy_v.Dict.Lookup.{and_both, not-true}
use rdpproxy_v.Settings.{Json, text, Manager, put, seal_password, seal_found, to_store}
use rdpproxy_v.Settings.Config.{LdapConfig, AppConfig, dump_ldap, dumped, get_fallback}
use rdpproxy_v.Settings.Seed.{
  add_row, patch_row, seed_missing, and_then, seed_from, seed_fallback, seed_key, seed_keys,
}

-- The same row and the same cached setting for a key.
abbrev pub AgreeAt : Text → Manager → Manager → Type 0
AgreeAt key m m' = (m.db key ≡ m'.db key) × (m.cache key ≡ m'.cache key)

abbrev pub listed : Text → List Text → Bool
listed key [] = false
listed key (k ∷ ks) = text_eq k key || listed key ks

abbrev pub unrepeated : List Text → Bool
unrepeated [] = true
unrepeated (k ∷ ks) = not (listed k ks) && unrepeated ks

module _ (j key : Text) (apart : text_eq key j ≡ false) where
  put_other : {A : Type 0} (f : Text → A) (a : A) → put f key a j ≡ f j
  put_other f a = rw apart refl

  add_row-other :
      (e : Option Error) (m : Manager) (v : Dict Json) (row : Option (Option (Dict Json)))
      → AgreeAt j (add_row e m key v row) m
  add_row-other none m v none = (put_other m.db _, put_other m.cache _)
  add_row-other none m v (some r) = (refl, refl)
  add_row-other (some e) m v row = (refl, refl)

  patch_row-other :
      (e : Option Error) (m : Manager) (d : Dict Json) (row : Option (Option (Dict Json)))
      → AgreeAt j (patch_row e m key d row) m
  unfolding patch_row
  patch_row-other (some e) m d row = (refl, refl)
  patch_row-other none m [] row = (refl, refl)
  patch_row-other none m (x ∷ d) none = (refl, refl)
  patch_row-other none m (x ∷ d) (some none) = (refl, refl)
  patch_row-other none m (x ∷ d) (some (some r)) = (put_other m.db _, put_other m.cache _)

  seed_missing-other :
      (e : Option Error) (m : Manager) (r : Result (Dict Json))
      → AgreeAt j (seed_missing e m key r).1 m
  seed_missing-other e m (err x) = (refl, refl)
  seed_missing-other e m (ok v) = add_row-other e m v (m.db key)

  module _ (c : Crypto) (cfg : AppConfig) (nonce : Bytes) (e : Option Error) (m : Manager) where
    seed_from-other :
        (fallback : Dict Json) (cached : Option (Dict Json))
        → AgreeAt j (seed_from c cfg nonce e m key fallback cached).1 m
    unfolding seed_from
    seed_from-other fallback none = seed_missing-other e m _
    seed_from-other fallback (some cached) = patch_row-other e m _ _

    seed_fallback-other :
        (o : Option (Dict Json)) → AgreeAt j (seed_fallback c cfg nonce e m key o).1 m
    unfolding seed_fallback
    seed_fallback-other none = (refl, refl)
    seed_fallback-other (some []) = (refl, refl)
    seed_fallback-other (some (x ∷ d)) = seed_from-other (x ∷ d) (m.cache key)

    pub seed_key-other : AgreeAt j (seed_key c cfg nonce e m key).1 m
    unfolding seed_key
    seed_key-other = seed_fallback-other (get_fallback cfg key)

module _ (c : Crypto) (cfg : AppConfig) (nonce : Bytes) where
  sealed-ok :
      (password : Text) (rest : Dict Json)
      → (s : Dict Json) × (seal_password c nonce (text password) rest ≡ ok s)
  unfolding seal_password
  sealed-ok [] rest = (rest, refl)
  sealed-ok (x ∷ password) rest = (_, refl)

  -- A fallback is never refused by the encryption.
  to_store-dumped :
      (o : Option LdapConfig) (d : Dict Json)
      → dumped o ≡ some d
      → (s : Dict Json) × (to_store c nonce (codes "ldap") d ≡ ok s)
  unfolding to_store seal_found get text_eq
  to_store-dumped none d h = absurd cc
  to_store-dumped (some l) d h =
      subst (λ x. (s : Dict Json) × (to_store c nonce (codes "ldap") x ≡ ok s))
        (some-injective (dump_ldap l) d h)
        (sealed-ok l.bind_password (pop (codes "bind_password") (dump_ldap l)))

  to_store_fallback :
      (key : Text) (d : Dict Json)
      → get_fallback cfg key ≡ some d
      → (s : Dict Json) × (to_store c nonce key d ≡ ok s)
  unfolding to_store get_fallback
  to_store_fallback key d h = elim (Bool-cases (text_eq key (codes "ldap"))) [
    | inr e ↦ (d, rw e refl)
    | inl e ↦
        subst (λ k. get_fallback cfg k ≡ some d → (s : Dict Json) × (to_store c nonce k d ≡ ok s))
          (sym ((text_eq_iff key (codes "ldap")).0 e)) (λ q. to_store-dumped cfg.ldap d q) h
  ]

  -- No round raises.
  seed_key_ok :
      (e : Option Error) (m : Manager) (key : Text) → (seed_key c cfg nonce e m key).0 ≡ ok tt
  unfolding seed_key
  seed_key_ok e m key = at (get_fallback cfg key) refl
    where
      missing :
          (d : Dict Json)
          → (s : Dict Json) × (to_store c nonce key d ≡ ok s)
          → (seed_missing e m key (to_store c nonce key d)).0 ≡ ok tt
      missing d (s, q) = rw q refl

      from :
          (d : Dict Json) (cached : Option (Dict Json))
          → get_fallback cfg key ≡ some d
          → (seed_from c cfg nonce e m key d cached).0 ≡ ok tt
      from d none h = missing d (to_store_fallback key d h)
      from d (some x) h = refl

      at :
          (o : Option (Dict Json))
          → get_fallback cfg key ≡ o
          → (seed_fallback c cfg nonce e m key o).0 ≡ ok tt
      at none h = refl
      at (some []) h = refl
      at (some (x ∷ d)) h = from (x ∷ d) (m.cache key) h

  module _ (on_db : Text → Option Error) where
    later :
        (r : Result (Unit {0}) × Manager) (rest : Manager → Result (Unit {0}) × Manager)
        → r.0 ≡ ok tt
        → and_then r rest ≡ rest r.1
    later (ok u, m) rest h = refl
    later (err e, m) rest h = absurd cc

    seed_keys-cons :
        (k : Text) (ks : List Text) (m : Manager)
        → seed_keys c cfg nonce on_db (k ∷ ks) m
          ≡ seed_keys c cfg nonce on_db ks (seed_key c cfg nonce (on_db k) m k).1
    unfolding seed_keys
    seed_keys-cons k ks m = later _ _ (seed_key_ok (on_db k) m k)

    stepped :
        (key k : Text) (ks : List Text) (m to : Manager)
        → AgreeAt key (seed_keys c cfg nonce on_db ks (seed_key c cfg nonce (on_db k) m k).1).1 to
        → AgreeAt key (seed_keys c cfg nonce on_db (k ∷ ks) m).1 to
    stepped key k ks m to (p, q) = (
      ap (λ r. r.1.db key) (seed_keys-cons k ks m) ∙ p,
      ap (λ r. r.1.cache key) (seed_keys-cons k ks m) ∙ q,
    )

    pub seed_keys_ok : (ks : List Text) (m : Manager) → (seed_keys c cfg nonce on_db ks m).0 ≡ ok tt
    unfolding seed_keys
    seed_keys_ok [] m = refl
    seed_keys_ok (k ∷ ks) m = ap (λ r. r.0) (seed_keys-cons k ks m) ∙ seed_keys_ok ks _

    pub seed_keys-other :
        (key : Text) (ks : List Text) (m : Manager)
        → listed key ks ≡ false
        → AgreeAt key (seed_keys c cfg nonce on_db ks m).1 m
    unfolding seed_keys
    seed_keys-other key [] m h = (refl, refl)
    seed_keys-other key (k ∷ ks) m h =
        let (p, q) = or_none _ _ h in
        let rest = seed_keys-other key ks (seed_key c cfg nonce (on_db k) m k).1 q in
        let head = seed_key-other key k p c cfg nonce (on_db k) m in
        stepped key k ks m m (rest.0 ∙ head.0, rest.1 ∙ head.1)

    -- What the loop leaves for a key is what the round of that key makes, of what was there.
    pub seed_keys-at :
        (key : Text) (ks : List Text) (m : Manager)
        → listed key ks ≡ true
        → unrepeated ks ≡ true
        → (m' : Manager) × (AgreeAt key m' m
            × AgreeAt key
                (seed_keys c cfg nonce on_db ks m).1
                (seed_key c cfg nonce (on_db key) m' key).1)
    seed_keys-at key [] m h u = absurd cc
    seed_keys-at key (k ∷ ks) m h u = elim (Bool-cases (text_eq k key)) [
      | inl e ↦
          subst
            (λ x.
              listed x ks ≡ false
              → (m' : Manager) × (AgreeAt x m' m
                  × AgreeAt x (seed_keys c cfg nonce on_db (k ∷ ks) m).1
                      (seed_key c cfg nonce (on_db x) m' x).1))
            ((text_eq_iff k key).0 e)
            (λ n.
              let rest = seed_keys-other k ks (seed_key c cfg nonce (on_db k) m k).1 n in
              (m, ((refl, refl), stepped k k ks m (seed_key c cfg nonce (on_db k) m k).1 rest)))
            (ap (λ x. listed x ks) (sym ((text_eq_iff k key).0 e)) ∙ not-true _ (and_both _ _ u).0)
      | inr e ↦
          (let (m', (before, after)) =
              seed_keys-at key ks (seed_key c cfg nonce (on_db k) m k).1 (sym (rw e refl) ∙ h)
                (and_both _ _ u).1 in
            let head = seed_key-other key k e c cfg nonce (on_db k) m in
            (
              m',
              (
                (before.0 ∙ head.0, before.1 ∙ head.1),
                stepped key k ks m (seed_key c cfg nonce (on_db key) m' key).1 after,
              ),
            ))
    ]
