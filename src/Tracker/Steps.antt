-- ===== src/Tracker/Steps.antt =====
-- What the relays and the administrators do to the history, in any order: a connection that has
-- ended stays ended, and a killed one stays killed.
use rdpproxy_v.Prelude.{ℕ, suc, ◌≡◌, ◌≤◌, Bool, true, false, Option, none, some, List, [], ◌∷◌, map}
use rdpproxy_v.Prelude.Text.{Text}
use rdpproxy_v.Errors.{Error}
use rdpproxy_v.Effect.{Action, perform, when, ask, pure, ◌>>=◌}
use rdpproxy_v.Effect.Keeps.{Keeps, bind-Keeps, when-Keeps, perform-Keeps, ask-Keeps}
use rdpproxy_v.Redis.{Redis}
use rdpproxy_v.Tracker.{
  is_active, ConnectionHistory, Detail, World, TrackerConfig, Started, Ended, finish_rows,
  reconcile_row, start, event, finish, reconcile_stale_active_on_startup,
}
use rdpproxy_v.Tracker.Rows.{
  row_of, stage, IsLater-stage, Kept, KeptWorld, Kept-refl, Kept-trans, insert-Kept, update-Kept,
  reconcile_row-IsUpdate, kill_row-IsUpdate, finish_rows-Kept, kill_rows-Kept,
}
use rdpproxy_v.Tracker.Kill.{
  drop_found, drop_token, mark_killed, kill_parsed, kill_round, kill_session, fourth_part,
  kill_each, kill_rows, kill_all_sessions,
}

Held : {S A : Type 0} → Action (World S) A → Type 0
Held m = Keeps (λ w w'. KeptWorld w w') m

module _ (S : Type 0) where
  same : (w : World S) → KeptWorld w w
  same w = Kept-refl w.history

  onward : (a b c : World S) → KeptWorld a b → KeptWorld b c → KeptWorld a c
  onward a b c = Kept-trans a.history b.history c.history

  do-Held :
      {A B : Type 0} (m : Action (World S) A) (k : A → Action (World S) B)
      → Held m
      → ((a : A) → Held (k a))
      → Held (m >>= k)
  unfolding Held
  do-Held = bind-Keeps (λ w w'. KeptWorld w w') same onward

  commit-Held :
      (b : Bool) (e : Option Error) (f : List ConnectionHistory → List ConnectionHistory)
      → ((rows : List ConnectionHistory) → Kept rows (f rows))
      → Held {S = S} (when b (perform e (λ w. record w { history = f w.history })))
  unfolding Held
  commit-Held b e f h =
      when-Keeps (λ w w'. KeptWorld w w') same onward b _
        (perform-Keeps (λ w w'. KeptWorld w w') same onward e _ (λ w. h w.history))

  redis-Held :
      (b : Bool) (e : Option Error) (f : S → S)
      → Held (when b (perform e (λ w. record w { redis = f w.redis })))
  unfolding Held
  redis-Held b e f =
      when-Keeps (λ w w'. KeptWorld w w') same onward b _
        (perform-Keeps (λ w w'. KeptWorld w w') same onward e _ same)

  done-Held : {A : Type 0} (m : Action (World S) A) → ((w : World S) → KeptWorld w (m w).1) → Held m
  unfolding Held
  done-Held m h = h

  apply-Held : {A : Type 0} (m : Action (World S) A) → Held m → (w : World S) → KeptWorld w (m w).1
  unfolding Held
  apply-Held m h = h

  pure-Held : {A : Type 0} (a : A) → Held {S = S} (pure a)
  unfolding Held
  pure-Held a = same

  ask-Held : {A : Type 0} (e : Option Error) (f : World S → A) → Held (ask e f)
  unfolding Held
  ask-Held = ask-Keeps (λ w w'. KeptWorld w w') same onward

module _ (R : Redis) (parse_uuid : Text → Option Text)
    (scan : R.State → Text → List Text × Bool) where
  -- One thing that a relay or an administrator does, whatever fails in it.
  pub data Step : World R.State → World R.State → Type 0 where
    starts :
        (cfg : TrackerConfig) (on_commit on_set : Option Error) (cid started_at : Text)
        (a : Started) (w : World R.State)
        → Step w (start R parse_uuid cfg on_commit on_set cid started_at a w).1
    reports :
        (cfg : TrackerConfig) (on_commit : Option Error) (id event_type : Text) (d : Detail)
        (w : World R.State)
        → Step w (event R parse_uuid cfg on_commit id event_type d w).1
    finishes :
        (cfg : TrackerConfig) (on_commit on_delete : Option Error) (now : ℕ) (id : Text) (e : Ended)
        (w : World R.State)
        → is_active e.status ≡ false
        → Step w (finish R parse_uuid cfg on_commit on_delete now id e w).1
    reconciles :
        (cfg : TrackerConfig) (on_commit : Option Error) (now : ℕ) (w : World R.State)
        → Step w (reconcile_stale_active_on_startup R parse_uuid cfg scan on_commit now w).1
    kills :
        (call : ℕ → Option Error) (instance_id id : Text) (w : World R.State)
        → Step w (kill_session R parse_uuid call instance_id id w).1
    kills_all :
        (calls : ℕ → ℕ → Option Error) (on_commit : Option Error) (active_keys : List Text)
        (w : World R.State)
        → Step w (kill_all_sessions R parse_uuid calls on_commit active_keys w).1

  pub data Steps : World R.State → World R.State → Type 0 where
    none_left : (w : World R.State) → Steps w w
    next : (w w' w'' : World R.State) → Step w w' → Steps w' w'' → Steps w w''

  start-Held :
      (cfg : TrackerConfig) (on_commit on_set : Option Error) (cid started_at : Text) (a : Started)
      → Held (start R parse_uuid cfg on_commit on_set cid started_at a)
  unfolding start
  start-Held cfg on_commit on_set cid started_at a =
      do-Held _ _ _ (commit-Held _ cfg.has_db on_commit _ (λ rows. insert-Kept rows _))
        (λ _. do-Held _ _ _ (redis-Held _ cfg.has_redis on_set _) (λ _. pure-Held _ _))

  finish-Held :
      (cfg : TrackerConfig) (on_commit on_delete : Option Error) (now : ℕ) (id : Text) (e : Ended)
      → is_active e.status ≡ false
      → Held (finish R parse_uuid cfg on_commit on_delete now id e)
  unfolding finish
  finish-Held cfg on_commit on_delete now id e h =
      do-Held _ _ _
        (commit-Held _ cfg.has_db on_commit (finish_rows id now e)
          (λ rows. finish_rows-Kept id now e rows h))
        (λ _. redis-Held _ cfg.has_redis on_delete _)

  event-Held :
      (cfg : TrackerConfig) (on_commit : Option Error) (id event_type : Text) (d : Detail)
      → Held (event R parse_uuid cfg on_commit id event_type d)
  unfolding event
  event-Held cfg on_commit id event_type d = done-Held _ _ (
      when-Keeps (λ w w'. KeptWorld w w') (same _) (onward _) cfg.has_db _
        (perform-Keeps (λ w w'. KeptWorld w w') (same _) (onward _) on_commit _ (same _)))

  reconcile-Held :
      (cfg : TrackerConfig) (on_commit : Option Error) (now : ℕ)
      → Held (reconcile_stale_active_on_startup R parse_uuid cfg scan on_commit now)
  unfolding reconcile_stale_active_on_startup
  reconcile-Held cfg on_commit now = done-Held _ _ (λ w.
      apply-Held _ _
        (do-Held _ _ _
          (commit-Held _ cfg.has_db on_commit (map (reconcile_row cfg.instance_id now))
            (λ rows. update-Kept _ rows (reconcile_row-IsUpdate cfg.instance_id now)))
          (λ _. done-Held _ _ (same _)))
        w)

  mark_killed-Held :
      (call : ℕ → Option Error) (id active_key : Text)
      → Held (mark_killed R parse_uuid call id active_key)
  unfolding mark_killed
  mark_killed-Held call id active_key =
      do-Held _ _ _ (redis-Held _ true (call 0) _) (λ _. redis-Held _ true (call 1) _)

  drop_found-Held :
      (call : ℕ → Option Error) (id : Text) (o : Option Text)
      → Held (drop_found R parse_uuid call id o)
  unfolding drop_found
  drop_found-Held call id none = pure-Held _ tt
  drop_found-Held call id (some t) =
      do-Held _ _ _ (redis-Held _ true (call 3) _) (λ _. redis-Held _ true (call 4) _)

  drop_token-Held : (call : ℕ → Option Error) (id : Text) → Held (drop_token R parse_uuid call id)
  unfolding drop_token
  drop_token-Held call id = do-Held _ _ _ (ask-Held _ (call 2) _) (λ o. drop_found-Held call id o)

  kill_parsed-Held :
      (call : ℕ → Option Error) (instance_id id : Text) (o : Option Text)
      → Held (kill_parsed R parse_uuid call instance_id id o)
  unfolding kill_parsed
  kill_parsed-Held call instance_id id none = pure-Held _ _
  kill_parsed-Held call instance_id id (some cid) = do-Held _ _ _ (mark_killed-Held call id _) (λ _.
      do-Held _ _ _ (drop_token-Held call id) (λ _.
        do-Held _ _ _
          (commit-Held _ true (call 5) _ (λ rows. update-Kept _ rows (kill_row-IsUpdate _ cid)))
          (λ _. pure-Held _ _)))

  kill_round-Held :
      (call : ℕ → Option Error) (k : Text) (rest : Action (World R.State) (List Text))
      (o : Option Text)
      → Held rest
      → Held (kill_round R parse_uuid call k rest o)
  unfolding kill_round
  kill_round-Held call k rest none h = h
  kill_round-Held call k rest (some id) h = do-Held _ _ _ (mark_killed-Held call id k) (λ _.
      do-Held _ _ _ (drop_token-Held call id)
        (λ _. do-Held _ _ _ (done-Held _ _ (same _)) (λ cid. do-Held _ _ _ h (λ _. pure-Held _ _))))

  kill_each-Held :
      (calls : ℕ → ℕ → Option Error) (n : ℕ) (active_keys : List Text)
      → Held (kill_each R parse_uuid calls n active_keys)
  unfolding kill_each
  kill_each-Held calls n [] = pure-Held _ _
  kill_each-Held calls n (k ∷ ks) =
      kill_round-Held (calls n) k _ (fourth_part k) (kill_each-Held calls (suc n) ks)

  kill_all_sessions-Held :
      (calls : ℕ → ℕ → Option Error) (on_commit : Option Error) (active_keys : List Text)
      → Held (kill_all_sessions R parse_uuid calls on_commit active_keys)
  unfolding kill_all_sessions
  kill_all_sessions-Held calls on_commit active_keys =
      do-Held _ _ _ (kill_each-Held calls 0 active_keys) (λ cids.
        do-Held _ _ _ (commit-Held _ true on_commit (kill_rows cids) (kill_rows-Kept cids))
          (λ _. pure-Held _ _))

  step-Kept : (w w' : World R.State) → Step w w' → KeptWorld w w'
  unfolding kill_session
  step-Kept _ _ (starts cfg c s cid t a w) = apply-Held _ _ (start-Held cfg c s cid t a) w
  step-Kept _ _ (reports cfg c id t d w) = apply-Held _ _ (event-Held cfg c id t d) w
  step-Kept _ _ (finishes cfg c d now id e w h) = apply-Held _ _ (finish-Held cfg c d now id e h) w
  step-Kept _ _ (reconciles cfg c now w) = apply-Held _ _ (reconcile-Held cfg c now) w
  step-Kept _ _ (kills call instance_id id w) =
      apply-Held _ _ (kill_parsed-Held call instance_id id (parse_uuid id)) w
  step-Kept _ _ (kills_all calls c active_keys w) =
      apply-Held _ _ (kill_all_sessions-Held calls c active_keys) w

  steps-Kept : (w w' : World R.State) → Steps w w' → Kept w.history w'.history
  steps-Kept _ _ (none_left w) = Kept-refl w.history
  steps-Kept _ _ (next w w' w'' s more) =
      Kept-trans w.history w'.history w''.history (step-Kept w w' s) (steps-Kept w' w'' more)

  -- Whatever relays and administrators do, in whatever order and whatever fails, a connection that
  -- has a row keeps one, and is no less far: one that has ended does not become active again, and
  -- one that was killed stays killed, if relays finish connections with statuses other than
  -- `active`.
  pub stage-Steps :
      (w w' : World R.State) (id : Text) (row : ConnectionHistory)
      → Steps w w'
      → row_of id w.history ≡ some row
      → (row' : ConnectionHistory) × (row_of id w'.history ≡ some row')
        × (stage row.status ≤ stage row'.status)
  stage-Steps w w' id row steps found =
      let (row', e, l) = steps-Kept w w' steps id row found in
      (row', e, IsLater-stage row.status row'.status l)
