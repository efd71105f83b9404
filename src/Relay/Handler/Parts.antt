-- ===== src/Relay/Handler/Parts.antt =====
-- The handler's parts, by what they leave alone.
use rdpproxy_v.Prelude.{
  ℕ, refl, Bool, true, false, Option, none, some, if◌then◌else◌, Bool-cases, inl, inr,
}
use rdpproxy_v.Prelude.Text.{Bytes, Text, non_empty}
use rdpproxy_v.Errors.{Result, ok, err}
use rdpproxy_v.Effect.{pure, lift}
use rdpproxy_v.Crypto.{Crypto}
use rdpproxy_v.Redis.{Redis}
use rdpproxy_v.Sessions.{SessionData, Ttls}
use rdpproxy_v.Credssp.Handshake.{Ntlm}
use rdpproxy_v.Tracker.{Detail}
use rdpproxy_v.Relay.Handler.Quiet.{
  IsQuiet, Stays, of-IsQuiet, at-Quiet, do-IsQuiet, of-Stays, do-Stays, perform-Stays,
  perform-IsQuiet, when-Stays, when-IsQuiet,
}
use rdpproxy_v.Relay.Handler.{
  call, redis_call, event, Admitted, refuse, bind_fingerprint, check_matches, check_fingerprint,
  admit_session, admit, connect, relay, clear_keys, bound, delete_conn_token,
}
use rdpproxy_v.Relay.Connection.{Call, Place, HandlerConfig, Incoming, text_or_empty, or_else}

module _ (R : Redis) (crypto : Crypto) (ttls : Ttls) (parse_uuid : Text → Option Text) (N : Ntlm)
    (decode_utf8_ignore : Bytes → Text) (cfg : HandlerConfig) (i : Incoming R.State) where
  lift-IsQuiet : {A : Type 0} (r : Result A) → IsQuiet R.State (lift r)
  lift-IsQuiet r = of-IsQuiet R.State _ (λ h. (refl, refl))

  redis_call-IsQuiet :
      (c : Call) (f : R.State → R.State)
      → IsQuiet R.State (redis_call R crypto ttls parse_uuid N decode_utf8_ignore cfg i c f)
  redis_call-IsQuiet c f = perform-IsQuiet R.State _ _ (λ h. (refl, refl))

  refuse-IsQuiet : IsQuiet R.State (refuse R crypto ttls parse_uuid N decode_utf8_ignore cfg i)
  refuse-IsQuiet = of-IsQuiet R.State _ (λ h. (refl, refl))

  bound-IsQuiet :
      (r : Result (Bool × R.State))
      → IsQuiet R.State (bound R crypto ttls parse_uuid N decode_utf8_ignore cfg i r)
  unfolding bound
  bound-IsQuiet (err e) = lift-IsQuiet (err e)
  bound-IsQuiet (ok (b, s)) = perform-IsQuiet R.State none _ (λ h. (refl, refl))

  bind_fingerprint-IsQuiet :
      (token fp : Text)
      → IsQuiet R.State
          (bind_fingerprint R crypto ttls parse_uuid N decode_utf8_ignore cfg i token fp)
  unfolding bind_fingerprint
  bind_fingerprint-IsQuiet token fp =
      of-IsQuiet R.State _ (λ h. at-Quiet R.State _ (bound-IsQuiet _) h)

  check_matches-IsQuiet :
      (a : Admitted R crypto ttls parse_uuid N decode_utf8_ignore cfg i) (r : Result Bool)
      → IsQuiet R.State (check_matches R crypto ttls parse_uuid N decode_utf8_ignore cfg i a r)
  unfolding check_matches
  check_matches-IsQuiet a (err e) = lift-IsQuiet (err e)
  check_matches-IsQuiet a (ok true) = of-IsQuiet R.State _ (λ h. (refl, refl))
  check_matches-IsQuiet a (ok false) = refuse-IsQuiet

  check_fingerprint-IsQuiet :
      (a : Admitted R crypto ttls parse_uuid N decode_utf8_ignore cfg i) (x : Bytes)
      → IsQuiet R.State (check_fingerprint R crypto ttls parse_uuid N decode_utf8_ignore cfg i a x)
  unfolding check_fingerprint
  check_fingerprint-IsQuiet a x =
      elim (Bool-cases (non_empty (text_or_empty a.session.fingerprint))) [
        | inl e ↦
            rw e (of-IsQuiet R.State _ (λ h. at-Quiet R.State _ (check_matches-IsQuiet a _) h))
        | inr e ↦ rw e (
            do-IsQuiet R.State _ _ (bind_fingerprint-IsQuiet a.token _)
              (λ _. of-IsQuiet R.State _ (λ h. (refl, refl))))
      ]

  admit_session-IsQuiet :
      (x : Bytes) (token : Text) (protocols : ℕ) (r : Result (Option SessionData))
      → IsQuiet R.State
          (admit_session R crypto ttls parse_uuid N decode_utf8_ignore cfg i x token protocols r)
  unfolding admit_session
  admit_session-IsQuiet x token protocols (err e) = lift-IsQuiet (err e)
  admit_session-IsQuiet x token protocols (ok none) = refuse-IsQuiet
  admit_session-IsQuiet x token protocols (ok (some s)) =
      at (or_else cfg.fingerprint_setting cfg.fingerprint_default)
    where
      a : Admitted R crypto ttls parse_uuid N decode_utf8_ignore cfg i
      a = record { token = token; client_requested_protocols = protocols; session = s }

      at :
          (b : Bool)
          → IsQuiet R.State (
              if b
              then check_fingerprint R crypto ttls parse_uuid N decode_utf8_ignore cfg i a x
              else pure (some a))
      at true = check_fingerprint-IsQuiet a x
      at false = of-IsQuiet R.State _ (λ h. (refl, refl))

  pub admit-IsQuiet : IsQuiet R.State (admit R crypto ttls parse_uuid N decode_utf8_ignore cfg i)
  unfolding admit
  admit-IsQuiet = do-IsQuiet R.State _ _ (lift-IsQuiet _) (λ x.
      do-IsQuiet R.State _ _ (lift-IsQuiet _) (λ token.
        do-IsQuiet R.State _ _ (lift-IsQuiet _) (λ protocols.
          of-IsQuiet R.State _
            (λ h. at-Quiet R.State _ (admit_session-IsQuiet x token protocols _) h))))

  pub clear_keys-IsQuiet :
      (cid token : Text)
      → IsQuiet R.State (clear_keys R crypto ttls parse_uuid N decode_utf8_ignore cfg i cid token)
  unfolding clear_keys
  clear_keys-IsQuiet cid token =
      do-IsQuiet R.State _ _ (when-IsQuiet R.State _ _ (redis_call-IsQuiet _ _))
        (λ _. redis_call-IsQuiet _ _)

  pub delete_conn_token-IsQuiet :
      (place : Place) (cid : Text)
      → IsQuiet R.State
          (delete_conn_token R crypto ttls parse_uuid N decode_utf8_ignore cfg i place cid)
  delete_conn_token-IsQuiet place cid = redis_call-IsQuiet _ _

  event-Stays :
      (cid event_type : Text) (d : Detail)
      → Stays R.State (event R crypto ttls parse_uuid N decode_utf8_ignore cfg i cid event_type d)
  event-Stays cid event_type d = of-Stays R.State _ (λ h. refl)

  lift-Stays : {A : Type 0} (r : Result A) → Stays R.State (lift r)
  lift-Stays r = of-Stays R.State _ (λ h. refl)

  call-Stays :
      (c : Call) → Stays R.State (call R crypto ttls parse_uuid N decode_utf8_ignore cfg i c)
  call-Stays c = perform-Stays R.State _ _ (λ h. refl)

  pub connect-Stays :
      (cid : Text) (a : Admitted R crypto ttls parse_uuid N decode_utf8_ignore cfg i)
      → Stays R.State (connect R crypto ttls parse_uuid N decode_utf8_ignore cfg i cid a)
  unfolding connect
  connect-Stays cid a = do-Stays R.State _ _ (perform-Stays R.State _ _ (λ h. refl)) (λ _.
      do-Stays R.State _ _ (event-Stays cid _ _) (λ _. do-Stays R.State _ _ (lift-Stays _) (λ host.
        do-Stays R.State _ _ (when-Stays R.State _ _ (event-Stays cid _ _)) (λ _.
          do-Stays R.State _ _ (lift-Stays _) (λ _. do-Stays R.State _ _ (call-Stays _) (λ _.
            do-Stays R.State _ _ (event-Stays cid _ _) (λ _.
              do-Stays R.State _ _ (call-Stays _) (λ _.
                do-Stays R.State _ _ (event-Stays cid _ _) (λ _.
                  do-Stays R.State _ _ (lift-Stays _) (λ _.
                    do-Stays R.State _ _ (event-Stays cid _ _)
                      (λ _. of-Stays R.State _ (λ h. refl))))))))))))

  pub relay-Stays :
      (cid : Text) (a : Admitted R crypto ttls parse_uuid N decode_utf8_ignore cfg i) (host : Text)
      → Stays R.State (relay R crypto ttls parse_uuid N decode_utf8_ignore cfg i cid a host)
  unfolding relay
  relay-Stays cid a host = do-Stays R.State _ _ (call-Stays _) (λ _.
      do-Stays R.State _ _ (perform-Stays R.State none _ (λ h. refl)) (λ _.
        do-Stays R.State _ _ (call-Stays _)
          (λ _. do-Stays R.State _ _ (event-Stays cid _ _) (λ _. of-Stays R.State _ (λ h. refl)))))
