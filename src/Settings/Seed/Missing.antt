-- ===== src/Settings/Seed/Missing.antt =====
-- The entries that are missing in the cache.
use rdpproxy_v.Prelude.{
  ◌≡◌, refl, ap, ◌∙◌, inl, inr, Bool, true, false, Bool-cases, ◌⊎◌, none, [], ◌∷◌, if◌then◌else◌,
}
use rdpproxy_v.Prelude.Text.{Text, text_eq, text_eq_iff}
use rdpproxy_v.Dict.{Dict, has, get}
use rdpproxy_v.Dict.Laws.{or_none}
use rdpproxy_v.Dict.Lookup.{and_both, not-true, has_no_repeats}
use rdpproxy_v.Settings.{Json}
use rdpproxy_v.Settings.Seed.{absent_from}

pub has-absent_from :
    (j : Text) (cached d : Dict Json) → has j d ≡ false → has j (absent_from cached d) ≡ false
unfolding has absent_from
has-absent_from j cached [] h = refl
has-absent_from j cached ((k, v) ∷ d) h = at (has k cached) (has-absent_from j cached d both.1)
  where
    both : (text_eq k j ≡ false) × (has j d ≡ false)
    both = or_none (text_eq k j) (has j d) h

    at :
        (b : Bool)
        → has j (absent_from cached d) ≡ false
        → has j (if b then absent_from cached d else (k, v) ∷ absent_from cached d) ≡ false
    at true q = q
    at false q = rw (both.0, q) refl

pub absent_from-has_no_repeats :
    (cached d : Dict Json) → has_no_repeats d ≡ true → has_no_repeats (absent_from cached d) ≡ true
unfolding has_no_repeats absent_from
absent_from-has_no_repeats cached [] h = refl
absent_from-has_no_repeats cached ((k, v) ∷ d) h =
    at (has k cached) (absent_from-has_no_repeats cached d (and_both _ _ h).1)
      (has-absent_from k cached d (not-true _ (and_both _ _ h).0))
  where
    at :
        (b : Bool)
        → has_no_repeats (absent_from cached d) ≡ true
        → has k (absent_from cached d) ≡ false
        → has_no_repeats (if b then absent_from cached d else (k, v) ∷ absent_from cached d) ≡ true
    at true q n = q
    at false q n = rw (n, q) refl

pub get-absent_from_old :
    (j : Text) (cached d : Dict Json) → has j cached ≡ true → get j (absent_from cached d) ≡ none
unfolding get absent_from
get-absent_from_old j cached [] h = refl
get-absent_from_old j cached ((k, v) ∷ d) h = elim (Bool-cases (has k cached)) [
  | inl c ↦ rw c (get-absent_from_old j cached d h)
  | inr c ↦
      (let e : text_eq k j ≡ false = differ (Bool-cases (text_eq k j)) c in
        rw c (rw e (get-absent_from_old j cached d h)))
]
  where
    differ :
        (text_eq k j ≡ true) ⊎ (text_eq k j ≡ false) → has k cached ≡ false → text_eq k j ≡ false
    differ (inr e) c = e
    differ (inl e) c = absurd cc (ap (λ x. has x cached) ((text_eq_iff k j).0 e))

pub get-absent_from_new :
    (j : Text) (cached d : Dict Json)
    → has j cached ≡ false
    → get j (absent_from cached d) ≡ get j d
unfolding get absent_from
get-absent_from_new j cached [] h = refl
get-absent_from_new j cached ((k, v) ∷ d) h = elim (Bool-cases (text_eq k j)) [
  | inl e ↦
      (let c : has k cached ≡ false = ap (λ x. has x cached) ((text_eq_iff k j).0 e) ∙ h in
        rw (c, e) refl)
  | inr e ↦ rw e (at (has k cached) e (get-absent_from_new j cached d h))
]
  where
    at :
        (b : Bool)
        → text_eq k j ≡ false
        → get j (absent_from cached d) ≡ get j d
        → get j (if b then absent_from cached d else (k, v) ∷ absent_from cached d) ≡ get j d
    at true e q = q
    at false e q = rw e q
