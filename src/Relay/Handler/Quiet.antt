-- ===== src/Relay/Handler/Quiet.antt =====
-- Parts of the handler that leave the history or the tracked connection alone.
use rdpproxy_v.Prelude.{◌≡◌, refl, ◌∙◌, Bool, Option}
use rdpproxy_v.Errors.{Error, Result, ok, err}
use rdpproxy_v.Effect.{Action, proceed, perform, ask, when, ◌>>=◌}
use rdpproxy_v.Effect.Keeps.{Keeps, bind-Keeps, when-Keeps, perform-Keeps, ask-Keeps}
use rdpproxy_v.Relay.Connection.{Handling}

-- Neither the history nor the tracked connection changes.
abbrev pub Quiet : {S : Type 0} → Handling S → Handling S → Type 0
Quiet h h' = (h'.world.history ≡ h.world.history) × (h'.tracked_cid ≡ h.tracked_cid)

-- The tracked connection does not change.
abbrev pub SameTracked : {S : Type 0} → Handling S → Handling S → Type 0
SameTracked h h' = h'.tracked_cid ≡ h.tracked_cid

module _ (S : Type 0) where
  pub IsQuiet : {A : Type 0} → Action (Handling S) A → Type 0
  IsQuiet m = Keeps (λ h h'. Quiet h h') m

  pub Stays : {A : Type 0} → Action (Handling S) A → Type 0
  Stays m = Keeps (λ h h'. SameTracked h h') m

  pub of-IsQuiet :
      {A : Type 0} (m : Action (Handling S) A) → ((h : Handling S) → Quiet h (m h).1) → IsQuiet m
  unfolding IsQuiet
  of-IsQuiet m f = f

  pub at-Quiet :
      {A : Type 0} (m : Action (Handling S) A) → IsQuiet m → (h : Handling S) → Quiet h (m h).1
  unfolding IsQuiet
  at-Quiet m f = f

  pub do-IsQuiet :
      {A B : Type 0} (m : Action (Handling S) A) (k : A → Action (Handling S) B)
      → IsQuiet m
      → ((a : A) → IsQuiet (k a))
      → IsQuiet (m >>= k)
  unfolding IsQuiet
  do-IsQuiet =
      bind-Keeps (λ h h'. Quiet h h') (λ h. (refl, refl)) (λ a b c p q. (q.0 ∙ p.0, q.1 ∙ p.1))

  pub of-Stays :
      {A : Type 0} (m : Action (Handling S) A)
      → ((h : Handling S) → SameTracked h (m h).1)
      → Stays m
  unfolding Stays
  of-Stays m f = f

  pub at-Stays :
      {A : Type 0} (m : Action (Handling S) A) → Stays m → (h : Handling S) → SameTracked h (m h).1
  unfolding Stays
  at-Stays m f = f

  pub do-Stays :
      {A B : Type 0} (m : Action (Handling S) A) (k : A → Action (Handling S) B)
      → Stays m
      → ((a : A) → Stays (k a))
      → Stays (m >>= k)
  unfolding Stays
  do-Stays = bind-Keeps (λ h h'. SameTracked h h') (λ h. refl) (λ a b c p q. q ∙ p)

  pub perform-Stays :
      (e : Option Error) (f : Handling S → Handling S)
      → ((h : Handling S) → SameTracked h (f h))
      → Stays (perform e f)
  unfolding Stays
  perform-Stays = perform-Keeps (λ h h'. SameTracked h h') (λ h. refl) (λ a b c p q. q ∙ p)

  pub perform-IsQuiet :
      (e : Option Error) (f : Handling S → Handling S)
      → ((h : Handling S) → Quiet h (f h))
      → IsQuiet (perform e f)
  unfolding IsQuiet
  perform-IsQuiet =
      perform-Keeps (λ h h'. Quiet h h') (λ h. (refl, refl)) (λ a b c p q. (q.0 ∙ p.0, q.1 ∙ p.1))

  pub when-Stays : (b : Bool) (m : Action (Handling S) (Unit {0})) → Stays m → Stays (when b m)
  unfolding Stays
  when-Stays = when-Keeps (λ h h'. SameTracked h h') (λ h. refl) (λ a b c p q. q ∙ p)

  pub when-IsQuiet :
      (b : Bool) (m : Action (Handling S) (Unit {0})) → IsQuiet m → IsQuiet (when b m)
  unfolding IsQuiet
  when-IsQuiet =
      when-Keeps (λ h h'. Quiet h h') (λ h. (refl, refl)) (λ a b c p q. (q.0 ∙ p.0, q.1 ∙ p.1))

  pub ask-Stays : {A : Type 0} (e : Option Error) (f : Handling S → A) → Stays (ask e f)
  unfolding Stays
  ask-Stays = ask-Keeps (λ h h'. SameTracked h h') (λ h. refl) (λ a b c p q. q ∙ p)

  pub IsQuiet-Stays : {A : Type 0} (m : Action (Handling S) A) → IsQuiet m → Stays m
  IsQuiet-Stays m q = of-Stays m (λ h. (at-Quiet m q h).1)

  -- A quiet action behind another one leaves the history as the first left it.
  pub history-after :
      {A B : Type 0} (m : Action (Handling S) A) (k : A → Action (Handling S) B) (h : Handling S)
      → ((a : A) → IsQuiet (k a))
      → ((m >>= k) h).1.world.history ≡ (m h).1.world.history
  unfolding ◌>>=◌
  history-after m k h q = at (m h)
    where
      at : (x : Result _ × Handling S) → (proceed k x).1.world.history ≡ x.1.world.history
      at (ok a, h') = (at-Quiet (k a) (q a) h').0
      at (err e, h') = refl
