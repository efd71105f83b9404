-- ===== src/Dict/Laws.antt =====
-- How the operations on a dict go together.
use rdpproxy_v.Prelude.{
  ◌≡◌, refl, sym, ap, ◌∙◌, Bool, true, false, Bool-cases, inl, inr, none, some, ◌||◌, [], ◌∷◌,
  if◌then◌else◌,
}
use rdpproxy_v.Prelude.Text.{Text, text_eq, text_eq_iff, text_eq_refl}
use mathlib.Core.Path.{subst}
use rdpproxy_v.Dict.{Dict, has, get, set, merge, pop}

or_assoc : (a b c : Bool) → ((a || b) || c) ≡ (a || (b || c))
or_assoc true b c = refl
or_assoc false b c = refl

or_swap : (a b c : Bool) → (a || (b || c)) ≡ ((a || b) || c)
or_swap true b c = refl
or_swap false b c = refl

or_false : (a : Bool) → (a || false) ≡ a
or_false true = refl
or_false false = refl

or_again : (a b : Bool) → (a || b) ≡ ((a || b) || a)
or_again true b = refl
or_again false true = refl
or_again false false = refl

pub or_none : (a b : Bool) → (a || b) ≡ false → (a ≡ false) × (b ≡ false)
or_none true b h = absurd cc
or_none false b h = (refl, h)

module _ {V : Type 0} where
  pub has-set : (k j : Text) (v : V) (d : Dict V) → has k (set j v d) ≡ (has k d || text_eq j k)
  unfolding has set
  has-set k j v [] = or_false (text_eq j k)
  has-set k j v ((i, w) ∷ d) = elim (Bool-cases (text_eq i j)) [
    | inl e ↦ rw e (
        or_again (text_eq i k) (has k d)
        ∙ ap (λ x. (text_eq i k || has k d) || text_eq x k) ((text_eq_iff i j).0 e))
    | inr e ↦ rw e (
        ap (λ b. text_eq i k || b) (has-set k j v d)
        ∙ or_swap (text_eq i k) (has k d) (text_eq j k))
  ]

  pub has-merge : (k : Text) (d more : Dict V) → has k (merge d more) ≡ (has k d || has k more)
  unfolding has merge
  has-merge k d [] = sym (or_false (has k d))
  has-merge k d ((j, v) ∷ more) =
      has-merge k (set j v d) more
      ∙ (ap (λ b. b || has k more) (has-set k j v d)
          ∙ or_assoc (has k d) (text_eq j k) (has k more))

  pub pop_missing : (k : Text) (d : Dict V) → has k d ≡ false → pop k d ≡ d
  unfolding has pop
  pop_missing k [] h = refl
  pop_missing k ((j, v) ∷ d) h = at (text_eq j k) h (pop_missing k d)
    where
      at :
          (b : Bool)
          → (b || has k d) ≡ false
          → (has k d ≡ false → pop k d ≡ d)
          → (if b then pop k d else (j, v) ∷ pop k d) ≡ (j, v) ∷ d
      at true h later = absurd cc
      at false h later = ap (λ x. (j, v) ∷ x) (later h)

  pub has-pop : (k : Text) (d : Dict V) → has k (pop k d) ≡ false
  unfolding has pop
  has-pop k [] = refl
  has-pop k ((j, v) ∷ d) = elim (Bool-cases (text_eq j k)) [
    | inl e ↦ rw e (has-pop k d)
    | inr e ↦ rw e (rw e (has-pop k d))
  ]

  pop-set_same : (k : Text) (v : V) (d : Dict V) → pop k (set k v d) ≡ pop k d
  unfolding set pop
  pop-set_same k v [] = rw (text_eq_refl k) refl
  pop-set_same k v ((j, w) ∷ d) = elim (Bool-cases (text_eq j k)) [
    | inl e ↦ rw e (rw e refl)
    | inr e ↦ rw e (rw e (ap (λ x. (j, w) ∷ x) (pop-set_same k v d)))
  ]

  pop-set_other :
      (k j : Text) (v : V) (d : Dict V)
      → text_eq j k ≡ false
      → pop k (set j v d) ≡ set j v (pop k d)
  unfolding set pop
  pop-set_other k j v [] h = rw h refl
  pop-set_other k j v ((i, w) ∷ d) h = elim (Bool-cases (text_eq i j)) [
    | inl e ↦
        (let q : text_eq i k ≡ false = ap (λ x. text_eq x k) ((text_eq_iff i j).0 e) ∙ h in
          rw e (rw q (rw e refl)))
    | inr e ↦ elim (Bool-cases (text_eq i k)) [
      | inl q ↦ rw (e, q) (pop-set_other k j v d h)
      | inr q ↦ rw (e, q) (rw e (ap (λ x. (i, w) ∷ x) (pop-set_other k j v d h)))
    ]
  ]

  -- What stood under a key before does not matter once the key is taken out.
  pop-set-pop : (k j : Text) (v : V) (d : Dict V) → pop k (set j v (pop k d)) ≡ pop k (set j v d)
  pop-set-pop k j v d = elim (Bool-cases (text_eq j k)) [
    | inl e ↦
        subst (λ x. pop k (set x v (pop k d)) ≡ pop k (set x v d)) (sym ((text_eq_iff j k).0 e))
          (pop-set_same k v (pop k d)
            ∙ (pop_missing k (pop k d) (has-pop k d) ∙ sym (pop-set_same k v d)))
    | inr e ↦
        pop-set_other k j v (pop k d) e
        ∙ (ap (set j v) (pop_missing k (pop k d) (has-pop k d)) ∙ sym (pop-set_other k j v d e))
  ]

  pub pop-merge-pop :
      (k : Text) (d more : Dict V) → pop k (merge (pop k d) more) ≡ pop k (merge d more)
  unfolding merge
  pop-merge-pop k d [] = pop_missing k (pop k d) (has-pop k d)
  pop-merge-pop k d ((j, v) ∷ more) =
      sym (pop-merge-pop k (set j v (pop k d)) more)
      ∙ (ap (λ x. pop k (merge x more)) (pop-set-pop k j v d) ∙ pop-merge-pop k (set j v d) more)

  pub pop-merge :
      (k : Text) (d more : Dict V)
      → has k more ≡ false
      → pop k (merge d more) ≡ merge (pop k d) more
  unfolding merge has
  pop-merge k d [] h = refl
  pop-merge k d ((j, v) ∷ more) h =
      let (p, q) = or_none (text_eq j k) (has k more) h in
      pop-merge k (set j v d) more q ∙ ap (λ x. merge x more) (pop-set_other k j v d p)

  pub missing : (k : Text) (d : Dict V) → get k d ≡ none → has k d ≡ false
  unfolding has get
  missing k [] h = refl
  missing k ((j, v) ∷ d) h = at (text_eq j k) h (missing k d)
    where
      at :
          (b : Bool)
          → (if b then some v else get k d) ≡ none
          → (get k d ≡ none → has k d ≡ false)
          → (b || has k d) ≡ false
      at true h later = absurd cc
      at false h later = later h
