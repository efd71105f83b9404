-- ===== src/Settings/Sync.antt =====
-- The cache is what the table holds.
use rdpproxy_v.Prelude.{
  ◌≡◌, refl, sym, ap, ◌∙◌, inl, inr, ◌⊎◌, true, false, Bool-cases, Option, none, some,
}
use mathlib.Core.Path.{subst}
use rdpproxy_v.Prelude.Text.{Bytes, Text, codes, text_eq, text_eq_iff, text_eq_refl}
use rdpproxy_v.Errors.{Error, Result, ok, err}
use rdpproxy_v.Crypto.{Crypto}
use rdpproxy_v.Dict.{Dict, has, merge, pop}
use rdpproxy_v.Dict.Laws.{has-merge, pop_missing, has-pop, pop-merge-pop, pop-merge}
use rdpproxy_v.Settings.{
  Json, Manager, loaded, fresh, load, without_listen, stored, cached, to_store, committed,
  save_stored, save,
}

-- The cache is what `load` would make it.
abbrev pub InSync : Manager → Type 0
InSync m = (key : Text) → m.cache key ≡ (load m).cache key

-- A value for `proxy` that has no `listen_port` without a `public_port`.
abbrev pub Ports : Text → Dict Json → Type 0
Ports key value =
    text_eq key (codes "proxy") ≡ true
    → (has (codes "public_port") value ≡ true) ⊎ (has (codes "listen_port") value ≡ false)

-- Keys other than `proxy`.
loaded_other : (key : Text) (d : Dict Json) → text_eq key (codes "proxy") ≡ false → loaded key d ≡ d
unfolding loaded
loaded_other key d h = rw h refl

without_other :
    (key : Text) (s d : Dict Json)
    → text_eq key (codes "proxy") ≡ false
    → without_listen key s d ≡ d
unfolding without_listen
without_other key s d h = rw h refl

module _ (key : Text) (is_proxy : text_eq key (codes "proxy") ≡ true) where
  -- `load` takes the port out wherever there is a public one.
  loaded_public :
      (d : Dict Json)
      → has (codes "public_port") d ≡ true
      → loaded key d ≡ pop (codes "listen_port") d
  unfolding loaded
  loaded_public d h = elim (Bool-cases (has (codes "listen_port") d)) [
    | inl e ↦ rw (is_proxy, h, e) refl
    | inr e ↦ rw (is_proxy, h, e) (sym (pop_missing (codes "listen_port") d e))
  ]

  loaded_private : (d : Dict Json) → has (codes "public_port") d ≡ false → loaded key d ≡ d
  unfolding loaded
  loaded_private d h = rw (is_proxy, h) refl

  loaded_listenless : (d : Dict Json) → has (codes "listen_port") d ≡ false → loaded key d ≡ d
  unfolding loaded
  loaded_listenless d h = elim (Bool-cases (has (codes "public_port") d)) [
    | inl e ↦ rw (is_proxy, e, h) refl
    | inr e ↦ rw (is_proxy, e) refl
  ]

  without_public :
      (s d : Dict Json)
      → has (codes "public_port") s ≡ true
      → without_listen key s d ≡ pop (codes "listen_port") d
  unfolding without_listen
  without_public s d h = rw (is_proxy, h) refl

  without_private :
      (s d : Dict Json) → has (codes "public_port") s ≡ false → without_listen key s d ≡ d
  unfolding without_listen
  without_private s d h = rw (is_proxy, h) refl

  -- A value with a public port.
  public_agree :
      (s : Dict Json) (o : Option (Option (Dict Json)))
      → has (codes "public_port") s ≡ true
      → loaded key (stored key s o) ≡ cached key s (fresh key o)
  unfolding stored cached
  public_agree s none h =
      ap (loaded key) (without_public s s h)
      ∙ (loaded_listenless (pop (codes "listen_port") s) (has-pop (codes "listen_port") s)
          ∙ sym (without_public s s h))
  public_agree s (some none) h = loaded_public s h ∙ sym (without_public s s h)
  public_agree s (some (some d)) h =
      ap (loaded key) (without_public s (merge d s) h)
      ∙ (loaded_listenless _ (has-pop (codes "listen_port") (merge d s))
          ∙ (at (Bool-cases (has (codes "public_port") d))
              ∙ sym (without_public s (merge (loaded key d) s) h)))
    where
      at :
          (has (codes "public_port") d ≡ true) ⊎ (has (codes "public_port") d ≡ false)
          → pop (codes "listen_port") (merge d s)
            ≡ pop (codes "listen_port") (merge (loaded key d) s)
      at (inl e) = sym (
          ap (λ x. pop (codes "listen_port") (merge x s)) (loaded_public d e)
          ∙ pop-merge-pop (codes "listen_port") d s)
      at (inr e) = sym (ap (λ x. pop (codes "listen_port") (merge x s)) (loaded_private d e))

  -- A value without ports.
  private_agree :
      (s : Dict Json) (o : Option (Option (Dict Json)))
      → has (codes "public_port") s ≡ false
      → has (codes "listen_port") s ≡ false
      → loaded key (stored key s o) ≡ cached key s (fresh key o)
  unfolding stored cached
  private_agree s none h n =
      ap (loaded key) (without_private s s h)
      ∙ (loaded_listenless s n ∙ sym (without_private s s h))
  private_agree s (some none) h n = loaded_listenless s n ∙ sym (without_private s s h)
  private_agree s (some (some d)) h n =
      ap (loaded key) (without_private s (merge d s) h)
      ∙ (at (Bool-cases (has (codes "public_port") d))
          ∙ sym (without_private s (merge (loaded key d) s) h))
    where
      at :
          (has (codes "public_port") d ≡ true) ⊎ (has (codes "public_port") d ≡ false)
          → loaded key (merge d s) ≡ merge (loaded key d) s
      at (inl e) =
          loaded_public (merge d s) (has-merge (codes "public_port") d s ∙ rw e refl)
          ∙ (pop-merge (codes "listen_port") d s n ∙ ap (λ x. merge x s) (sym (loaded_public d e)))
      at (inr e) =
          loaded_private (merge d s) (has-merge (codes "public_port") d s ∙ rw (e, h) refl)
          ∙ ap (λ x. merge x s) (sym (loaded_private d e))

other_agree :
    (key : Text) (s : Dict Json) (o : Option (Option (Dict Json)))
    → text_eq key (codes "proxy") ≡ false
    → loaded key (stored key s o) ≡ cached key s (fresh key o)
unfolding stored cached
other_agree key s none h = loaded_other key _ h
other_agree key s (some none) h = loaded_other key s h ∙ sym (without_other key s s h)
other_agree key s (some (some d)) h =
    loaded_other key _ h
    ∙ (without_other key s (merge d s) h
        ∙ (ap (λ x. merge x s) (sym (loaded_other key d h)) ∙ sym (without_other key s _ h)))

agree :
    (key : Text) (s : Dict Json) (o : Option (Option (Dict Json)))
    → Ports key s
    → loaded key (stored key s o) ≡ cached key s (fresh key o)
agree key s o p = elim (Bool-cases (text_eq key (codes "proxy"))) [
  | inr e ↦ other_agree key s o e
  | inl e ↦ elim (Bool-cases (has (codes "public_port") s)) [
    | inl h ↦ public_agree key e s o h
    | inr h ↦ elim (p e) [
      | inl h' ↦ public_agree key e s o h'
      | inr n ↦ private_agree key e s o h n
    ]
  ]
]

module _ (c : Crypto) where
  committed-InSync :
      (m : Manager) (key : Text) (s : Dict Json)
      → InSync m
      → Ports key s
      → InSync (committed c m key s)
  unfolding load
  committed-InSync m key s sync p j = elim (Bool-cases (text_eq key j)) [
    | inr e ↦ rw e (sync j)
    | inl e ↦
        subst (λ k. (committed c m key s).cache k ≡ (load (committed c m key s)).cache k)
          ((text_eq_iff key j).0 e) here
  ]
    where
      here : (committed c m key s).cache key ≡ (load (committed c m key s)).cache key
      here =
          rw (text_eq_refl key)
            (ap some (ap (cached key s) (sync key) ∙ sym (agree key s (m.db key) p)))

  to_store_other :
      (nonce : Bytes) (key : Text) (value s : Dict Json)
      → text_eq key (codes "proxy") ≡ true
      → to_store c nonce key value ≡ ok s
      → value ≡ s
  unfolding to_store text_eq
  to_store_other nonce key value s e t =
      subst (λ k. to_store c nonce k value ≡ ok s → value ≡ s)
        (sym ((text_eq_iff key (codes "proxy")).0 e))
        (λ q. ap (λ r. elim r [ ok x ↦ x | err _ ↦ value ]) q) t

  save_stored-InSync :
      (on_commit : Option Error) (m : Manager) (key : Text) (r : Result (Dict Json))
      → InSync m
      → ((s : Dict Json) → r ≡ ok s → Ports key s)
      → InSync (save_stored c on_commit m key r).1
  unfolding save_stored
  save_stored-InSync on_commit m key (err e) sync p = sync
  save_stored-InSync (some e) m key (ok s) sync p = sync
  save_stored-InSync none m key (ok s) sync p = committed-InSync m key s sync (p s refl)

  -- After a save the cache is what a load would read, if it was before, whether the save succeeds
  -- or fails, and if a value for `proxy` has no listen_port without a public_port.
  pub save-InSync :
      (nonce : Bytes) (on_commit : Option Error) (m : Manager) (key : Text) (value : Dict Json)
      → InSync m
      → Ports key value
      → InSync (save c nonce on_commit m key value).1
  unfolding save
  save-InSync nonce on_commit m key value sync p =
      save_stored-InSync on_commit m key (to_store c nonce key value) sync (λ s t e.
        subst (λ d. (has (codes "public_port") d ≡ true) ⊎ (has (codes "listen_port") d ≡ false))
          (to_store_other nonce key value s e t) (p e))
