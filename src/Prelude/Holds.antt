-- ===== src/Prelude/Holds.antt =====
-- Elements of lists with their places.
use Prim.Native.Nat.{ℕ, zero, suc}
use mathlib.Core.Path.{◌≡◌, ap}
use mathlib.Core.Logic.{◌⊎◌, inl, inr}
use mathlib.Core.Option.{some, some-injective}
use mathlib.Core.List.{List, ◌∷◌}
use rdpproxy_v.Prelude.Lists.{get_elem?}

module _ {A : Type 0} where
  abbrev pub Holds : List A → A → Type 0
  Holds xs x = (i : ℕ) × (get_elem? xs i ≡ some x)

  pub holds_here : (y x : A) (xs : List A) → y ≡ x → Holds (y ∷ xs) x
  holds_here y x xs e = (0, ap some e)

  pub holds_more : (y x : A) (xs : List A) → Holds xs x → Holds (y ∷ xs) x
  holds_more y x xs (i, e) = (suc i, e)

  pub holds-cons : (y x : A) (xs : List A) → Holds (y ∷ xs) x → (y ≡ x) ⊎ Holds xs x
  holds-cons y x xs (zero, e) = inl (some-injective y x e)
  holds-cons y x xs (suc i, e) = inr (i, e)
