-- ===== src/Effect.antt =====
-- Code that keeps a state and may raise: what has been done before an exception stays done.
pub mod Keeps
use rdpproxy_v.Prelude.{Bool, true, false, Option, none, some}
use rdpproxy_v.Errors.{Error, Result, ok, err}

abbrev pub Action : Type 0 → Type 0 → Type 0
Action S A = S → Result A × S

module _ {S : Type 0} where
  abbrev pub pure : {A : Type 0} → A → Action S A
  pure a s = (ok a, s)

  abbrev pub lift : {A : Type 0} → Result A → Action S A
  lift r s = (r, s)

  abbrev pub proceed : {A B : Type 0} → (A → Action S B) → Result A × S → Result B × S
  proceed f (ok a, s) = f a s
  proceed f (err e, s) = (err e, s)

  -- A call that raises before it does anything, or succeeds.
  abbrev pub perform : Option Error → (S → S) → Action S (Unit {0})
  perform none f s = (ok tt, f s)
  perform (some e) f s = (err e, s)

  abbrev pub ask : {A : Type 0} → Option Error → (S → A) → Action S A
  ask none f s = (ok (f s), s)
  ask (some e) f s = (err e, s)

  abbrev pub when : Bool → Action S (Unit {0}) → Action S (Unit {0})
  when true m s = m s
  when false m s = (ok tt, s)

infixl 5 ◌>>=◌ ◌>>◌
unfoldable pub ◌>>=◌ : {S A B : Type 0} → Action S A → (A → Action S B) → Action S B
◌>>=◌ m f s = proceed f (m s)

abbrev pub ◌>>◌ : {S A B : Type 0} → Action S A → Action S B → Action S B
m >> k = m >>= λ _. k
