-- ===== src/Dict/Lookup.antt =====
-- What a lookup finds after the operations on a dict.
use rdpproxy_v.Prelude.{
  ◌≡◌, refl, sym, ap, ◌∙◌, Bool, true, false, Bool-cases, inl, inr, Option, none, some, not, ◌&&◌,
  ◌||◌, ◌⊎◌, [], ◌∷◌, if◌then◌else◌,
}
use rdpproxy_v.Prelude.Text.{Text, text_eq, text_eq_iff, text_eq_refl}
use mathlib.Core.Path.{subst}
use rdpproxy_v.Dict.Laws.{has-set, has-pop}
use rdpproxy_v.Dict.{Dict, has, get, set, merge, pop}

-- The first of two options that is there.
abbrev pub or_first {ℓ} : {A : Type ℓ} → Option A → Option A → Option A
or_first none b = b
or_first (some a) b = some a

pub or_first-none {ℓ} : {A : Type ℓ} (a : Option A) → or_first a none ≡ a
or_first-none none = refl
or_first-none (some a) = refl

pub and_both : (a b : Bool) → (a && b) ≡ true → (a ≡ true) × (b ≡ true)
and_both true b h = (refl, h)
and_both false b h = absurd cc

pub not-true : (a : Bool) → not a ≡ true → a ≡ false
not-true true h = absurd cc
not-true false h = refl

module _ {V : Type 0} where
  -- No key twice.
  unfoldable pub has_no_repeats : Dict V → Bool
  unfolding has
  has_no_repeats [] = true
  has_no_repeats ((k, v) ∷ d) = not (has k d) && has_no_repeats d

  pub get-absent : (k : Text) (d : Dict V) → has k d ≡ false → get k d ≡ none
  unfolding has get
  get-absent k [] h = refl
  get-absent k ((j, v) ∷ d) h = at (text_eq j k) h (get-absent k d)
    where
      at :
          (b : Bool)
          → (b || has k d) ≡ false
          → (has k d ≡ false → get k d ≡ none)
          → (if b then some v else get k d) ≡ none
      at true h later = absurd cc
      at false h later = later h

  pub get-present : (k : Text) (d : Dict V) → has k d ≡ true → (v : V) × (get k d ≡ some v)
  unfolding has get
  get-present k [] h = absurd cc
  get-present k ((j, v) ∷ d) h = at (text_eq j k) h (get-present k d)
    where
      at :
          (b : Bool)
          → (b || has k d) ≡ true
          → (has k d ≡ true → (w : V) × (get k d ≡ some w))
          → (w : V) × ((if b then some v else get k d) ≡ some w)
      at true h later = (v, refl)
      at false h later = later h

  pub get-set :
      (k j : Text) (v : V) (d : Dict V)
      → get k (set j v d) ≡ (if text_eq j k then some v else get k d)
  unfolding get set
  get-set k j v [] = refl
  get-set k j v ((i, w) ∷ d) = elim (Bool-cases (text_eq i j)) [
    | inl e ↦
        subst
          (λ x.
            get k (if text_eq i x then (i, v) ∷ d else (i, w) ∷ set x v d)
            ≡ (if text_eq x k then some v else get k ((i, w) ∷ d)))
          ((text_eq_iff i j).0 e) (rw (text_eq_refl i) (under (text_eq i k)))
    | inr e ↦ rw e (past e (get-set k j v d))
  ]
    where
      under :
          (b : Bool)
          → (if b then some v else get k d) ≡ (if b then some v else if b then some w else get k d)
      under true = refl
      under false = refl

      past :
          text_eq i j ≡ false
          → get k (set j v d) ≡ (if text_eq j k then some v else get k d)
          → (if text_eq i k then some w else get k (set j v d))
            ≡ (if text_eq j k then some v else if text_eq i k then some w else get k d)
      past e h = elim (Bool-cases (text_eq j k)) [
        | inl q ↦
            (let p : text_eq i k ≡ false = ap (text_eq i) (sym ((text_eq_iff j k).0 q)) ∙ e in
              rw (p, q) (h ∙ rw q refl))
        | inr q ↦ rw q (ap (λ x. if text_eq i k then some w else x) (h ∙ rw q refl))
      ]

  -- `{**d, **more}` has what `more` has, and the rest of `d`.
  pub get-merge :
      (k : Text) (d more : Dict V)
      → has_no_repeats more ≡ true
      → get k (merge d more) ≡ or_first (get k more) (get k d)
  unfolding merge get has_no_repeats
  get-merge k d [] h = refl
  get-merge k d ((j, v) ∷ more) h =
      get-merge k (set j v d) more both.1
      ∙ (ap (or_first (get k more)) (get-set k j v d) ∙ at (Bool-cases (text_eq j k)))
    where
      both : (not (has j more) ≡ true) × (has_no_repeats more ≡ true)
      both = and_both _ _ h

      at :
          (text_eq j k ≡ true) ⊎ (text_eq j k ≡ false)
          → or_first (get k more) (if text_eq j k then some v else get k d)
            ≡ or_first (if text_eq j k then some v else get k more) (get k d)
      at (inl e) = rw e (
          rw
            (get-absent k more
              (ap (λ x. has x more) (sym ((text_eq_iff j k).0 e)) ∙ not-true _ both.0))
            refl)
      at (inr e) = rw e refl

  pub has-pop_other : (k j : Text) (d : Dict V) → text_eq j k ≡ false → has k (pop j d) ≡ has k d
  unfolding has pop
  has-pop_other k j [] h = refl
  has-pop_other k j ((i, w) ∷ d) h = elim (Bool-cases (text_eq i j)) [
    | inl e ↦
        (let q : text_eq i k ≡ false = ap (λ x. text_eq x k) ((text_eq_iff i j).0 e) ∙ h in
          rw (e, q) (has-pop_other k j d h))
    | inr e ↦ rw e (ap (λ b. text_eq i k || b) (has-pop_other k j d h))
  ]

  pub get-pop_other : (k j : Text) (d : Dict V) → text_eq j k ≡ false → get k (pop j d) ≡ get k d
  unfolding get pop
  get-pop_other k j [] h = refl
  get-pop_other k j ((i, w) ∷ d) h = elim (Bool-cases (text_eq i j)) [
    | inl e ↦
        (let q : text_eq i k ≡ false = ap (λ x. text_eq x k) ((text_eq_iff i j).0 e) ∙ h in
          rw (e, q) (get-pop_other k j d h))
    | inr e ↦ rw e (ap (λ b. if text_eq i k then some w else b) (get-pop_other k j d h))
  ]

  has-pop_absent : (k j : Text) (d : Dict V) → has k d ≡ false → has k (pop j d) ≡ false
  has-pop_absent k j d h = elim (Bool-cases (text_eq j k)) [
    | inl e ↦ ap (λ x. has k (pop x d)) ((text_eq_iff j k).0 e) ∙ has-pop k d
    | inr e ↦ has-pop_other k j d e ∙ h
  ]

  pub pop-has_no_repeats :
      (j : Text) (d : Dict V) → has_no_repeats d ≡ true → has_no_repeats (pop j d) ≡ true
  unfolding has_no_repeats pop
  pop-has_no_repeats j [] h = refl
  pop-has_no_repeats j ((i, w) ∷ d) h =
      at (text_eq i j) (pop-has_no_repeats j d (and_both _ _ h).1)
        (has-pop_absent i j d (not-true (has i d) (and_both _ _ h).0))
    where
      at :
          (b : Bool)
          → has_no_repeats (pop j d) ≡ true
          → has i (pop j d) ≡ false
          → has_no_repeats (if b then pop j d else (i, w) ∷ pop j d) ≡ true
      at true q n = q
      at false q n = rw (n, q) refl

  pub set-has_no_repeats :
      (j : Text) (v : V) (d : Dict V) → has_no_repeats d ≡ true → has_no_repeats (set j v d) ≡ true
  unfolding has_no_repeats set has
  set-has_no_repeats j v [] h = refl
  set-has_no_repeats j v ((i, w) ∷ d) h = elim (Bool-cases (text_eq i j)) [
    | inl e ↦ rw e h
    | inr e ↦
        (let both = and_both (not (has i d)) (has_no_repeats d) h in
          let gone : has i (set j v d) ≡ false =
            has-set i j v d ∙ rw (not-true (has i d) both.0) (apart e) in
          rw e (rw (gone, set-has_no_repeats j v d both.1) refl))
  ]
    where
      apart : text_eq i j ≡ false → text_eq j i ≡ false
      apart e = elim (Bool-cases (text_eq j i)) [
        | inr q ↦ q
        | inl q ↦ absurd cc (sym e ∙ ((text_eq_iff i j).1 (sym ((text_eq_iff j i).0 q))))
      ]
