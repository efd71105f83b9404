-- ===== src/Relay/Handler/Ends.antt =====
-- When the handler is through with a connection, no row of it is active.
use rdpproxy_v.Prelude.{◌≡◌, refl, sym, ap, ◌∙◌, Bool, true, false, Option, none, some, List}
use mathlib.Core.Path.{subst}
use rdpproxy_v.Prelude.Text.{Bytes, Text, codes}
use rdpproxy_v.Errors.{Error, Result, ok, err}
use rdpproxy_v.Effect.{Action, proceed, ◌>>=◌}
use rdpproxy_v.Crypto.{Crypto}
use rdpproxy_v.Redis.{Redis}
use rdpproxy_v.Sessions.{SessionData, Ttls}
use rdpproxy_v.Credssp.Handshake.{Ntlm}
use rdpproxy_v.Tracker
use rdpproxy_v.Tracker.{Started, World, ConnectionHistory, Ended, is_active, finish_rows, rowcount}
use rdpproxy_v.Tracker.Finished.{
  finish-history, start_raises, start_succeeds, NoneOpen, finish_rows-NoneOpen,
}
use rdpproxy_v.Relay.Handler.Quiet.{
  Quiet, ask-Stays, IsQuiet-Stays, of-Stays, do-Stays, IsQuiet, Stays, at-Quiet, at-Stays,
  history-after,
}
use rdpproxy_v.Relay.Handler.Parts.{
  admit-IsQuiet, clear_keys-IsQuiet, delete_conn_token-IsQuiet, connect-Stays, relay-Stays,
}
use rdpproxy_v.Relay.Pipe.{RelayResult}
use rdpproxy_v.Relay.Handler.{
  event, finish, Admitted, admit, track, connect, relay, ended, conclude, serve, serve_admitted,
  dropped, failed, finalize, recover, after_body, handle, delete_conn_token,
}
use rdpproxy_v.Relay.Connection.{
  start_commit, start_set, event_commit, finish_commit, Place, normal_end, disconnect, failure,
  HandlerConfig, Incoming, Handling, in_world, attempt, abort_writer, is_disconnect, outcome,
  any_killed, legs_of,
}

-- What stands behind an action, by cases of how it ends.
bind_cases :
    {S A B : Type 0} (Q : Result B × S → Type 0) (m : Action S A) (k : A → Action S B) (s : S)
    → ((a : A) (s' : S) → m s ≡ (ok a, s') → Q (k a s'))
    → ((e : Error) (s' : S) → m s ≡ (err e, s') → Q (err e, s'))
    → Q ((m >>= k) s)
unfolding ◌>>=◌
bind_cases Q m k s f g = at (m s) refl
  where
    at : (x : Result _ × _) → m s ≡ x → Q (proceed k x)
    at (ok a, s') e = f a s' e
    at (err x, s') e = g x s' e

outcome_shut : (k a d : Bool) → is_active (outcome k a d).0 ≡ false
outcome_shut true true d = refl
outcome_shut true false true = refl
outcome_shut true false false = refl
outcome_shut false a d = refl

module _ (R : Redis) (crypto : Crypto) (ttls : Ttls) (parse_uuid : Text → Option Text) (N : Ntlm)
    (decode_utf8_ignore : Bytes → Text) (cfg : HandlerConfig) (i : Incoming R.State)
    (has_db : cfg.tracker.has_db ≡ true) (set_succeeds : i.raises start_set ≡ none)
    (event_succeeds : i.raises (event_commit (codes "error")) ≡ none)
    (finish_succeeds : (p : Place) → i.raises (finish_commit p) ≡ none) where
  -- An exception finds the connection tracked, or without an active row.
  Recoverable : Option Text → List ConnectionHistory → Type 0
  Recoverable none rows = NoneOpen i.cid rows
  Recoverable (some t) rows = t ≡ i.cid

  Post : Result (Unit {0}) × Handling R.State → Type 0
  Post (ok _, h) = NoneOpen i.cid h.world.history
  Post (err e, h) = Recoverable h.tracked_cid h.world.history

  tracked-Post : (e : Error) (h : Handling R.State) → h.tracked_cid ≡ some i.cid → Post (err e, h)
  unfolding Post Recoverable
  tracked-Post e h t = subst (λ o. Recoverable o h.world.history) (sym t) refl

  -- A part that leaves the tracked connection alone.
  behind :
      {A : Type 0} (m : Action (Handling R.State) A) (k : A → Action (Handling R.State) (Unit {0}))
      (h : Handling R.State)
      → Stays R.State m
      → h.tracked_cid ≡ some i.cid
      → ((a : A) (h' : Handling R.State) → h'.tracked_cid ≡ some i.cid → Post (k a h'))
      → Post ((m >>= k) h)
  behind m k h s t f =
      bind_cases Post m k h (λ a h' e. f a h' (kept h' (ap (λ x. x.1) e)))
        (λ x h' e. tracked-Post x h' (kept h' (ap (λ x. x.1) e)))
    where
      kept : (h' : Handling R.State) → (m h).1 ≡ h' → h'.tracked_cid ≡ some i.cid
      kept h' e = sym (ap (λ x. x.tracked_cid) e) ∙ (at-Stays R.State m s h ∙ t)

  finish_history :
      (place : Place) (cid : Text) (e : Ended) (h : Handling R.State)
      → (finish R crypto ttls parse_uuid N decode_utf8_ignore cfg i place cid e h).1.world.history
        ≡ finish_rows cid i.now e h.world.history
  finish_history place cid e h =
      rw (finish_succeeds place)
        (finish-history R parse_uuid cfg.tracker has_db _ i.now cid e h.world)

  finish-NoneOpen :
      (place : Place) (e : Ended) (h : Handling R.State)
      → is_active e.status ≡ false
      → NoneOpen i.cid
          (finish R crypto ttls parse_uuid N decode_utf8_ignore cfg i place i.cid e
            h).1.world.history
  finish-NoneOpen place e h s =
      subst (NoneOpen i.cid) (sym (finish_history place i.cid e h))
        (finish_rows-NoneOpen i.cid i.now e h.world.history s)

  -- `finish` and quiet calls behind it.
  finished-NoneOpen :
      (place : Place) (e : Ended) (k : Unit {0} → Action (Handling R.State) (Unit {0}))
      (h : Handling R.State)
      → is_active e.status ≡ false
      → ((a : Unit {0}) → IsQuiet R.State (k a))
      → NoneOpen i.cid
          ((finish R crypto ttls parse_uuid N decode_utf8_ignore cfg i place i.cid e >>= k)
            h).1.world.history
  finished-NoneOpen place e k h s q =
      subst (NoneOpen i.cid) (sym (history-after R.State _ k h q)) (finish-NoneOpen place e h s)

  shut-Post :
      (x : Result (Unit {0}) × Handling R.State)
      → NoneOpen i.cid x.1.world.history
      → x.1.tracked_cid ≡ some i.cid
      → Post x
  unfolding Post
  shut-Post (ok a, h) n t = n
  shut-Post (err e, h) n t = tracked-Post e h t

  conclude-Post :
      (token : Text) (result : RelayResult) (h : Handling R.State)
      → h.tracked_cid ≡ some i.cid
      → Post (conclude R crypto ttls parse_uuid N decode_utf8_ignore cfg i i.cid token result h)
  unfolding conclude
  conclude-Post token result h t = behind _ _ h (ask-Stays R.State _ _) t (λ admin_kill h' t'.
      shut-Post _
        (finished-NoneOpen normal_end
          (ended R crypto ttls parse_uuid N decode_utf8_ignore cfg i result admin_kill) _ h'
          (outcome_shut (any_killed (legs_of result)) admin_kill i.duration_exceeded)
          (λ _. clear_keys-IsQuiet R crypto ttls parse_uuid N decode_utf8_ignore cfg i i.cid token))
        (at-Stays R.State _
            (do-Stays R.State _ _
              (of-Stays R.State
                (finish R crypto ttls parse_uuid N decode_utf8_ignore cfg i normal_end i.cid
                  (ended R crypto ttls parse_uuid N decode_utf8_ignore cfg i result admin_kill))
                (λ h. refl))
              (λ _. IsQuiet-Stays R.State _ (
                clear_keys-IsQuiet R crypto ttls parse_uuid N decode_utf8_ignore cfg i i.cid
                  token)))
            h'
          ∙ t'))

  -- What `track` does to a connection that has no row.
  Tracked : Result Text × Handling R.State → Type 0
  Tracked (ok cid, h) = (cid ≡ i.cid) × (h.tracked_cid ≡ some i.cid)
  Tracked (err e, h) = Recoverable h.tracked_cid h.world.history

  track-Tracked :
      (s : SessionData) (h : Handling R.State)
      → h.tracked_cid ≡ none
      → NoneOpen i.cid h.world.history
      → Tracked (track R crypto ttls parse_uuid N decode_utf8_ignore cfg i s h)
  unfolding track Tracked ◌>>=◌ Recoverable
  track-Tracked s h t n = at (i.raises start_commit)
    where
      a : Started
      a = record {
        username = s.username;
        server_id = s.server_id;
        server_display = s.server_display;
        server_address = s.target_host;
        server_port = s.target_port;
        client_ip = i.client_ip;
      }

      at :
          (o : Option Error)
          → Tracked (
              (in_world (
                    Tracker.start R parse_uuid cfg.tracker o
                      (i.raises start_set)
                      i.cid
                      i.started_at
                      a)
                  >>= λ cid. (λ h. (ok cid, record h { tracked_cid = some cid })))
                h)
      at none =
          let (w', e) =
            start_succeeds R parse_uuid cfg.tracker has_db i.cid i.started_at a h.world in
          rw (set_succeeds, e) (refl, refl)
      at (some x) =
          rw
            (start_raises R parse_uuid cfg.tracker has_db x (i.raises start_set) i.cid i.started_at
              a h.world)
            (subst (λ o. Recoverable o h.world.history) (sym t) n)

  serve-Post :
      (a : Admitted R crypto ttls parse_uuid N decode_utf8_ignore cfg i) (h : Handling R.State)
      → h.tracked_cid ≡ none
      → NoneOpen i.cid h.world.history
      → Post (serve R crypto ttls parse_uuid N decode_utf8_ignore cfg i a h)
  unfolding serve Tracked Post
  serve-Post a h t n =
      bind_cases Post _ _ h
        (λ cid h' e.
          let (c, t') = subst Tracked e (track-Tracked a.session h t n) in
          subst
            (λ cid. Post (
              (connect R crypto ttls parse_uuid N decode_utf8_ignore cfg i cid a >>= λ host.
              relay R crypto ttls parse_uuid N decode_utf8_ignore cfg i cid a host >>= λ result.
              conclude R crypto ttls parse_uuid N decode_utf8_ignore cfg i cid a.token result)
                h'))
            (sym c)
            (behind _ _ h'
              (connect-Stays R crypto ttls parse_uuid N decode_utf8_ignore cfg i i.cid a) t'
              (λ host h'' t''.
                behind _ _ h''
                  (relay-Stays R crypto ttls parse_uuid N decode_utf8_ignore cfg i i.cid a host) t''
                  (λ result h3 t3. conclude-Post a.token result h3 t3))))
        (λ x h' e. subst Tracked e (track-Tracked a.session h t n))

  event_lem :
      (h : Handling R.State)
      → (h' : Handling R.State) × (event R crypto ttls parse_uuid N decode_utf8_ignore cfg i i.cid
            (codes "error")
            Tracker.empty
            h
          ≡ (ok tt, h'))
  unfolding Tracker.event
  event_lem h = rw (has_db, event_succeeds) (_, refl)

  -- The handlers of the `try` end the connection that they find.
  finalize-NoneOpen :
      (b : Bool) (h : Handling R.State)
      → NoneOpen i.cid
          (attempt
            (finalize R crypto ttls parse_uuid N decode_utf8_ignore cfg i b i.cid)
            h).world.history
  unfolding finalize ◌>>=◌
  finalize-NoneOpen true h =
      finished-NoneOpen disconnect (dropped R crypto ttls parse_uuid N decode_utf8_ignore cfg i) _ h
        refl
        (λ _.
          delete_conn_token-IsQuiet R crypto ttls parse_uuid N decode_utf8_ignore cfg i disconnect
            i.cid)
  finalize-NoneOpen false h =
      let (h', e) = event_lem h in
      subst
        (λ x.
          NoneOpen i.cid
            (proceed
              (λ (_ : Unit {0}).
                finish R crypto ttls parse_uuid N decode_utf8_ignore cfg i failure i.cid
                  (failed R crypto ttls parse_uuid N decode_utf8_ignore cfg i)
                >>= λ _.
                    delete_conn_token R crypto ttls parse_uuid N decode_utf8_ignore cfg i failure
                      i.cid)
              x).1.world.history)
        (sym e)
        (finished-NoneOpen failure (failed R crypto ttls parse_uuid N decode_utf8_ignore cfg i) _ h'
          refl
          (λ _.
            delete_conn_token-IsQuiet R crypto ttls parse_uuid N decode_utf8_ignore cfg i failure
              i.cid))

  recover-NoneOpen :
      (e : Error) (h : Handling R.State)
      → Recoverable h.tracked_cid h.world.history
      → NoneOpen i.cid
          (recover R crypto ttls parse_uuid N decode_utf8_ignore cfg i e h).world.history
  unfolding recover Recoverable
  recover-NoneOpen e h r = at h.tracked_cid r
    where
      at :
          (o : Option Text)
          → Recoverable o h.world.history
          → NoneOpen i.cid
              (elim o as (λ _. Handling R.State) [
                | none ↦ abort_writer h
                | some cid ↦ abort_writer (
                    attempt
                      (finalize R crypto ttls parse_uuid N decode_utf8_ignore cfg i
                        (is_disconnect e)
                        cid)
                      h)
              ]).world.history
      at none n = n
      at (some cid) c =
          subst
            (λ cid.
              NoneOpen i.cid
                (attempt
                  (finalize R crypto ttls parse_uuid N decode_utf8_ignore cfg i (is_disconnect e)
                    cid)
                  h).world.history)
            (sym c) (finalize-NoneOpen (is_disconnect e) h)

  after_body-NoneOpen :
      (x : Result (Unit {0}) × Handling R.State)
      → Post x
      → NoneOpen i.cid
          (after_body R crypto ttls parse_uuid N decode_utf8_ignore cfg i x).world.history
  unfolding after_body Post
  after_body-NoneOpen (ok a, h) p = p
  after_body-NoneOpen (err e, h) p = recover-NoneOpen e h p

  serve_admitted-Post :
      (o : Option (Admitted R crypto ttls parse_uuid N decode_utf8_ignore cfg i))
      (h : Handling R.State)
      → h.tracked_cid ≡ none
      → NoneOpen i.cid h.world.history
      → Post (serve_admitted R crypto ttls parse_uuid N decode_utf8_ignore cfg i o h)
  unfolding serve_admitted Post
  serve_admitted-Post none h t n = n
  serve_admitted-Post (some a) h t n = serve-Post a h t n

  -- When the handler is through with a connection, however it went and whatever other tasks did to
  -- the world while its bytes flowed, none of its rows is active, if there was none before, the
  -- tracker has a database, and these calls succeed: the SET of `start`, the commit of the event
  -- `error` and the commits of `finish`.
  pub handle-NoneOpen :
      (w : World R.State)
      → NoneOpen i.cid w.history
      → NoneOpen i.cid (handle R crypto ttls parse_uuid N decode_utf8_ignore cfg i w).world.history
  unfolding handle Post Recoverable
  handle-NoneOpen w n =
      let h0 : Handling R.State = record { world = w; tracked_cid = none; aborted = false } in
      after_body-NoneOpen
        ((admit R crypto ttls parse_uuid N decode_utf8_ignore cfg i
            >>= serve_admitted R crypto ttls parse_uuid N decode_utf8_ignore cfg i)
          h0)
        (bind_cases Post (admit R crypto ttls parse_uuid N decode_utf8_ignore cfg i)
          (serve_admitted R crypto ttls parse_uuid N decode_utf8_ignore cfg i) h0
          (λ o h' e.
            let (same, t) =
              subst (λ x. Quiet h0 x.1) e
                (at-Quiet R.State _
                  (admit-IsQuiet R crypto ttls parse_uuid N decode_utf8_ignore cfg i) h0) in
            serve_admitted-Post o h' t (subst (NoneOpen i.cid) (sym same) n))
          (λ x h' e.
            let (same, t) =
              subst (λ x. Quiet h0 x.1) e
                (at-Quiet R.State _
                  (admit-IsQuiet R crypto ttls parse_uuid N decode_utf8_ignore cfg i) h0) in
            subst (λ o. Recoverable o h'.world.history) (sym t)
              (subst (NoneOpen i.cid) (sym same) n)))
