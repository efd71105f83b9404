-- ===== src/Portal/Visible.antt =====
-- services/portal/routes/servers.py: whom `_server_visible` lets see a server.
use rdpproxy_v.Prelude.{
  ◌≡◌, refl, sym, ap, ◌∙◌, ◌↔◌, inl, inr, Bool, true, false, ◌||◌, List, [], ◌∷◌, Bool-cases, arith,
}
use mathlib.Core.Path.{subst}
use mathlib.Core.Logic.Or
use mathlib.Core.List.{Mem, mem-cons, not-mem-nil}
use mathlib.Core.Bool.{Bool-set}
use rdpproxy_v.Prelude.Text.{Text, text_eq, text_eq_refl, text_eq_sound, non_empty}
use rdpproxy_v.Search.{strip}
use rdpproxy_v.RdpFile.{contains, intersects, group_set}
use rdpproxy_v.Portal.{server_visible}

module _ (lower : Text → Text) where
  -- A text of the list that is not blank, and is `t` when it is trimmed and in lower case.
  abbrev pub Names : List Text → Text → Type 0
  Names gs t = (g : Text) × Mem g gs × (non_empty (strip g) ≡ true) × (lower (strip g) ≡ t)

  Names-more : (h : Text) (gs : List Text) (t : Text) → Names gs t → Names (h ∷ gs) t
  Names-more h gs t (g, m, filled, e) = (g, mem-cons.1 (Or.inr m), filled, e)

  contains_blank :
      (g : Text) (gs : List Text) (t : Text)
      → non_empty (strip g) ≡ false
      → contains (group_set lower (g ∷ gs)) t ≡ contains (group_set lower gs) t
  unfolding group_set
  contains_blank g gs t blank = rw blank refl

  contains_filled :
      (g : Text) (gs : List Text) (t : Text)
      → non_empty (strip g) ≡ true
      → contains (group_set lower (g ∷ gs)) t
        ≡ (text_eq (lower (strip g)) t || contains (group_set lower gs) t)
  unfolding group_set contains
  contains_filled g gs t filled = rw filled refl

  contains-Names : (gs : List Text) (t : Text) → contains (group_set lower gs) t ≡ true → Names gs t
  unfolding group_set contains
  contains-Names [] t h = cc
  contains-Names (g ∷ gs) t h = elim (Bool-cases (non_empty (strip g))) [
    | inr blank ↦ Names-more g gs t (contains-Names gs t (sym (contains_blank g gs t blank) ∙ h))
    | inl filled ↦ elim (Bool-cases (text_eq (lower (strip g)) t)) [
      | inl e ↦ (g, mem-cons.1 (Or.inl refl), filled, text_eq_sound (lower (strip g)) t e)
      | inr e ↦ Names-more g gs t (
          contains-Names gs t (
            ap (λ (b : Bool). b || contains (group_set lower gs) t) (sym e)
            ∙ sym (contains_filled g gs t filled)
            ∙ h))
    ]
  ]

  -- One step of `contains`, whatever the first text is.
  contains_more :
      (h : Text) (gs : List Text) (t : Text)
      → contains (group_set lower gs) t ≡ true
      → contains (group_set lower (h ∷ gs)) t ≡ true
  contains_more h gs t there = elim (Bool-cases (non_empty (strip h))) [
    | inr blank ↦ contains_blank h gs t blank ∙ there
    | inl filled ↦ contains_filled h gs t filled ∙ (rw there (ground arith))
  ]

  mem-contains :
      (gs : List Text) (g : Text)
      → non_empty (strip g) ≡ true
      → Mem g gs
      → contains (group_set lower gs) (lower (strip g)) ≡ true
  mem-contains [] g filled m = absurd (not-mem-nil m)
  mem-contains (h ∷ gs) g filled m =
      Or.elim (Bool-set _ _) (mem-cons.0 m)
        (λ e.
          subst (λ u. contains (group_set lower (u ∷ gs)) (lower (strip g)) ≡ true) e
            (contains_filled g gs (lower (strip g)) filled
              ∙ (rw (text_eq_refl (lower (strip g))) refl)))
        (λ more. contains_more h gs (lower (strip g)) (mem-contains gs g filled more))

  -- The two groups that are the same.
  abbrev pub Shared : List Text → List Text → Type 0
  Shared us gs =
      (u : Text) × Mem u us
      × (non_empty (strip u) ≡ true)
      × ((g : Text) × Mem g gs × (non_empty (strip g) ≡ true) × (lower (strip g) ≡ lower (strip u)))

  Shared-more : (u : Text) (us gs : List Text) → Shared us gs → Shared (u ∷ us) gs
  Shared-more u us gs (v, m, filled, named) = (v, mem-cons.1 (Or.inr m), filled, named)

  intersects_blank :
      (u : Text) (us set_ : List Text)
      → non_empty (strip u) ≡ false
      → intersects (group_set lower (u ∷ us)) set_ ≡ intersects (group_set lower us) set_
  unfolding group_set
  intersects_blank u us set_ blank = rw blank refl

  intersects_filled :
      (u : Text) (us set_ : List Text)
      → non_empty (strip u) ≡ true
      → intersects (group_set lower (u ∷ us)) set_
        ≡ (contains set_ (lower (strip u)) || intersects (group_set lower us) set_)
  unfolding group_set intersects
  intersects_filled u us set_ filled = rw filled refl

  intersects-Shared :
      (us gs : List Text)
      → intersects (group_set lower us) (group_set lower gs) ≡ true
      → Shared us gs
  unfolding group_set intersects
  intersects-Shared [] gs h = cc
  intersects-Shared (u ∷ us) gs h = elim (Bool-cases (non_empty (strip u))) [
    | inr blank ↦
        Shared-more u us gs
          (intersects-Shared us gs (sym (intersects_blank u us (group_set lower gs) blank) ∙ h))
    | inl filled ↦ elim (Bool-cases (contains (group_set lower gs) (lower (strip u)))) [
      | inl e ↦ (u, mem-cons.1 (Or.inl refl), filled, contains-Names gs (lower (strip u)) e)
      | inr e ↦ Shared-more u us gs (
          intersects-Shared us gs (
            ap (λ (b : Bool). b || intersects (group_set lower us) (group_set lower gs)) (sym e)
            ∙ sym (intersects_filled u us (group_set lower gs) filled)
            ∙ h))
    ]
  ]

  intersects_more :
      (u : Text) (us set_ : List Text)
      → intersects (group_set lower us) set_ ≡ true
      → intersects (group_set lower (u ∷ us)) set_ ≡ true
  intersects_more u us set_ there = elim (Bool-cases (non_empty (strip u))) [
    | inr blank ↦ intersects_blank u us set_ blank ∙ there
    | inl filled ↦ intersects_filled u us set_ filled ∙ (rw there (ground arith))
  ]

  mem-intersects :
      (us set_ : List Text) (u : Text)
      → non_empty (strip u) ≡ true
      → Mem u us
      → contains set_ (lower (strip u)) ≡ true
      → intersects (group_set lower us) set_ ≡ true
  mem-intersects [] set_ u filled m there = absurd (not-mem-nil m)
  mem-intersects (v ∷ us) set_ u filled m there =
      Or.elim (Bool-set _ _) (mem-cons.0 m)
        (λ e.
          subst (λ w. intersects (group_set lower (w ∷ us)) set_ ≡ true) e
            (intersects_filled u us set_ filled ∙ (rw there refl)))
        (λ more. intersects_more v us set_ (mem-intersects us set_ u filled more there))

  Shared-intersects :
      (us gs : List Text)
      → Shared us gs
      → intersects (group_set lower us) (group_set lower gs) ≡ true
  Shared-intersects us gs (u, m, filled, (g, n, filled', e)) =
      mem-intersects us (group_set lower gs) u filled m
        (subst (λ t. contains (group_set lower gs) t ≡ true) e (mem-contains gs g filled' n))

  -- Whom the code means to let see a server: everybody if it has no groups, else whoever has one of
  -- them.
  abbrev pub Permitted : List Text → List Text → Type 0
  Permitted [] us = Unit
  Permitted (g ∷ gs) us = Shared us (g ∷ gs)

  -- A server is visible exactly to the users that are permitted to see it: it has no groups, or a
  -- group of the user that is not blank is one of its groups, once both are trimmed and in lower
  -- case.
  pub server_visible-Permitted :
      (gs us : List Text) → (server_visible lower gs us ≡ true) ↔ Permitted gs us
  unfolding server_visible
  server_visible-Permitted [] us = (λ h. tt, λ h. refl)
  server_visible-Permitted (g ∷ gs) us =
      (intersects-Shared us (g ∷ gs), Shared-intersects us (g ∷ gs))
