-- ===== src/Dict.antt =====
-- Python's dicts with texts as keys: the list of the entries, in the order of their insertion.
pub mod Laws
pub mod Lookup
use rdpproxy_v.Prelude.{Bool, true, false, ◌||◌, Option, none, some, List, [], ◌∷◌, if◌then◌else◌}
use rdpproxy_v.Prelude.Text.{Text, text_eq}

abbrev pub Dict : Type 0 → Type 0
Dict V = List (Text × V)

module _ {V : Type 0} where
  -- `k in d`
  unfoldable pub has : Text → Dict V → Bool
  unfolding text_eq
  has k [] = false
  has k ((j, v) ∷ d) = text_eq j k || has k d

  -- d.get(k)
  unfoldable pub get : Text → Dict V → Option V
  unfolding text_eq
  get k [] = none
  get k ((j, v) ∷ d) = let rest = get k d in if text_eq j k then some v else rest

  -- d[k] = v
  unfoldable pub set : Text → V → Dict V → Dict V
  unfolding text_eq
  set k v [] = (k, v) ∷ []
  set k v ((j, w) ∷ d) = let rest = set k v d in if text_eq j k then (j, v) ∷ d else (j, w) ∷ rest

  -- {**d, **more}
  unfoldable pub merge : Dict V → Dict V → Dict V
  unfolding set
  merge d [] = d
  merge d ((k, v) ∷ more) = merge (set k v d) more

  -- d.pop(k, None)
  unfoldable pub pop : Text → Dict V → Dict V
  unfolding text_eq
  pop k [] = []
  pop k ((j, v) ∷ d) = let rest = pop k d in if text_eq j k then rest else (j, v) ∷ rest
