-- ===== src/Effect/Keeps.antt =====
-- Actions that lead from a state only to states that stand in a relation to it, whatever they
-- give back.
use rdpproxy_v.Prelude.{Bool, true, false, Option, none, some}
use rdpproxy_v.Errors.{Error, Result, ok, err}
use rdpproxy_v.Effect.{Action, pure, lift, proceed, perform, ask, when, ◌>>=◌}

abbrev pub Keeps : {S A : Type 0} → (S → S → Type 0) → Action S A → Type 0
Keeps Le m = (s : _) → Le s (m s).1

module _ {S : Type 0} (Le : S → S → Type 0) (same : (s : S) → Le s s)
    (onward : (a b c : S) → Le a b → Le b c → Le a c) where
  pub pure-Keeps : {A : Type 0} (a : A) → Keeps Le (pure a)
  pure-Keeps a s = same s

  pub lift-Keeps : {A : Type 0} (r : Result A) → Keeps Le (lift r)
  lift-Keeps r s = same s

  pub perform-Keeps :
      (e : Option Error) (f : S → S) → ((s : S) → Le s (f s)) → Keeps Le (perform e f)
  perform-Keeps none f h s = h s
  perform-Keeps (some e) f h s = same s

  pub ask-Keeps : {A : Type 0} (e : Option Error) (f : S → A) → Keeps Le (ask e f)
  ask-Keeps none f s = same s
  ask-Keeps (some e) f s = same s

  pub when-Keeps : (b : Bool) (m : Action S (Unit {0})) → Keeps Le m → Keeps Le (when b m)
  when-Keeps true m h s = h s
  when-Keeps false m h s = same s

  pub bind-Keeps :
      {A B : Type 0} (m : Action S A) (k : A → Action S B)
      → Keeps Le m
      → ((a : A) → Keeps Le (k a))
      → Keeps Le (m >>= k)
  unfolding ◌>>=◌
  bind-Keeps m k h g s = at (m s) (h s)
    where
      at : (x : Result _ × S) → Le s x.1 → Le s (proceed k x).1
      at (ok a, s') l = onward s s' _ l (g a s')
      at (err e, s') l = l
