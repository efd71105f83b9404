-- ===== src/Relay/Handler.antt =====
-- services/rdp_relay/handler.py: a connection from its first byte to its row in the history, over
-- what Relay.Connection says that it meets.
pub mod Quiet
pub mod Parts
pub mod Ends
pub mod Refuses
mod Tests
use rdpproxy_v.Prelude.{
  ℕ, Bool, true, false, ◌&&◌, not, Option, none, some, List, [], ◌∷◌, ◌++◌, if◌then◌else◌,
}
use rdpproxy_v.Prelude.Text.{Bytes, Text, codes, text_eq, non_empty, or_text}
use rdpproxy_v.Errors.{Error, Result, ok, err, incomplete_read, connection_reset}
use rdpproxy_v.Effect.{Action, pure, lift, perform, ask, when, ◌>>=◌, ◌>>◌}
use rdpproxy_v.Crypto.{Crypto}
use rdpproxy_v.Redis.{Redis}
use rdpproxy_v.Redis.Values
use rdpproxy_v.Redis.Keys
use rdpproxy_v.Sessions.{
  SessionData, Ttls, get_session, token_fingerprint_matches, set_token_fingerprint, delete_session,
}
use rdpproxy_v.Rdp.Tpkt.{read_tpkt}
use rdpproxy_v.Rdp.X224.{
  extract_cookie_token, extract_requested_protocols, build_rdp_client_fingerprint,
  build_x224_cc_ssl,
}
use rdpproxy_v.Credssp.Handshake.{Ntlm, Backend, Wait, fresh_conn, connect_and_authenticate}
use rdpproxy_v.Tracker
use rdpproxy_v.Tracker.{World, TrackerConfig, Detail, Ended, Status, closed, error}
use rdpproxy_v.Relay.Plugins.{SessionContext, Plugin}
use rdpproxy_v.Relay.Pipe.{Round, RelayResult, LegResult, Reason, killed, relay_bidirectional}
use rdpproxy_v.Relay.Connection.{
  Call, HandlerConfig, Handling, Incoming, Place, abort_writer, any_killed, attempt, cc_drain,
  conn_token_delete, conn_token_set, disconnect, event_commit, failure, finish_commit,
  finish_delete, in_world, is_disconnect, kill_get, legs_of, normal_end, or_else, outcome,
  session_end, session_start, start_commit, start_set, start_tls, text_or_empty, token_delete,
}

module _ (R : Redis) (crypto : Crypto) (ttls : Ttls) (parse_uuid : Text → Option Text) (N : Ntlm)
    (decode_utf8_ignore : Bytes → Text) (cfg : HandlerConfig) (i : Incoming R.State) where
  open R use {State, get, setex, delete}

  abbrev pub Step : Type 0 → Type 0
  Step A = Action (Handling State) A

  abbrev pub call : Call → Step (Unit {0})
  call c = perform (i.raises c) (λ h. h)

  abbrev pub redis_call : Call → (State → State) → Step (Unit {0})
  redis_call c f =
      perform (i.raises c) (λ h. record h { world = record h.world { redis = f h.world.redis } })

  abbrev pub event : Text → Text → Detail → Step (Unit {0})
  event cid event_type detail = in_world (
      Tracker.event R parse_uuid cfg.tracker (i.raises (event_commit event_type)) cid event_type
        detail)

  abbrev pub finish : Place → Text → Ended → Step (Unit {0})
  finish place cid e = in_world (
      Tracker.finish R parse_uuid cfg.tracker (i.raises (finish_commit place))
        (i.raises (finish_delete place)) i.now cid e)

  abbrev pub delete_conn_token : Place → Text → Step (Unit {0})
  delete_conn_token place cid =
      redis_call (conn_token_delete place) (λ s. delete s (Keys.conn_token cid))

  -- The session of a request, with its token and its protocols.
  pub record Admitted : Type 0 where
    pub token : Text
    pub client_requested_protocols : ℕ
    pub session : SessionData

  abbrev pub fingerprint_of : Bytes → Text → Text
  fingerprint_of x224_request token =
      build_rdp_client_fingerprint decode_utf8_ignore crypto.encode_utf8 crypto.sha256_hex
        x224_request token

  abbrev pub refuse : Step (Option Admitted)
  refuse h = (ok none, abort_writer h)

  unfoldable pub bound : Result (Bool × State) → Step (Unit {0})
  bound (err e) = lift (err e)
  bound (ok (_, s)) = perform none (λ h. record h { world = record h.world { redis = s } })

  -- A first client is bound to the token. Whether `set_token_fingerprint` did so is not looked at.
  unfoldable pub bind_fingerprint : Text → Text → Step (Unit {0})
  unfolding bound set_token_fingerprint
  bind_fingerprint token fp h =
      bound (set_token_fingerprint R crypto ttls token fp i.others h.world.redis) h

  unfoldable pub check_matches : Admitted → Result Bool → Step (Option Admitted)
  check_matches a (err e) = lift (err e)
  check_matches a (ok true) = pure (some a)
  check_matches a (ok false) = refuse

  unfoldable pub check_fingerprint : Admitted → Bytes → Step (Option Admitted)
  unfolding bind_fingerprint check_matches token_fingerprint_matches
  check_fingerprint a x224_request =
      let fp = fingerprint_of x224_request a.token in
      if non_empty (text_or_empty a.session.fingerprint)
      then (λ h.
          check_matches a (token_fingerprint_matches R crypto ttls h.world.redis a.token fp) h)
      else (do bind_fingerprint a.token fp; pure (some a))

  unfoldable pub admit_session :
      Bytes → Text → ℕ → Result (Option SessionData) → Step (Option Admitted)
  unfolding check_fingerprint
  admit_session x224_request token protocols (err e) = lift (err e)
  admit_session x224_request token protocols (ok none) = refuse
  admit_session x224_request token protocols (ok (some s)) =
      let a : Admitted = record {
        token = token;
        client_requested_protocols = protocols;
        session = s;
      } in
      if or_else cfg.fingerprint_setting cfg.fingerprint_default
      then check_fingerprint a x224_request
      else pure (some a)

  -- From the stream to the session; `none` is a connection that was refused.
  unfoldable pub admit : Step (Option Admitted)
  unfolding admit_session read_tpkt extract_cookie_token extract_requested_protocols get_session
  admit = (do
    x224_request ← lift (read_tpkt [] i.stream).0
    token ← lift (extract_cookie_token decode_utf8_ignore x224_request)
    protocols ← lift (extract_requested_protocols x224_request)
    (λ h.
        admit_session x224_request token protocols (get_session R crypto ttls h.world.redis token)
          h))

  -- `tracked_cid` is set once `start` has returned.
  unfoldable pub track : SessionData → Step Text
  track s = (do
    cid ← in_world (
        Tracker.start R parse_uuid cfg.tracker (i.raises start_commit) (i.raises start_set) i.cid
          i.started_at
          (record {
            username = s.username;
            server_id = s.server_id;
            server_display = s.server_display;
            server_address = s.target_host;
            server_port = s.target_port;
            client_ip = i.client_ip;
          }))
    (λ h. (ok cid, record h { tracked_cid = some cid })))

  abbrev pub ldap_domain : Text
  ldap_domain =
      or_text (text_or_empty cfg.settings_ldap_domain) (text_or_empty cfg.config_ldap_domain)

  -- From the tracked connection to the relay: TLS with the client, CredSSP with the backend.
  unfoldable pub connect : Text → Admitted → Step Text
  unfolding build_x224_cc_ssl connect_and_authenticate
  connect cid a =
      let s = a.session in
      (do
        redis_call conn_token_set
            (λ r. setex r (Keys.conn_token cid) ttls.rdp_token_ttl (Values.text a.token))
        event cid (codes "token_resolved") (Tracker.target s.target_host s.target_port)
        host ← lift (i.resolve s.target_host)
        when (not (text_eq host s.target_host))
            (event cid (codes "dns_resolved") (Tracker.resolved s.target_host host))
        confirm ← lift build_x224_cc_ssl
        call cc_drain
        event cid (codes "x224_cc_sent") Tracker.empty
        call start_tls
        event cid (codes "client_tls_established") Tracker.empty
        lift
            (connect_and_authenticate N i.backend i.echo i.answer s.username s.password ldap_domain
              fresh_conn).0
        event cid (codes "credssp_authenticated") Tracker.empty
        pure host)

  abbrev pub context : Text → Admitted → Text → SessionContext
  context cid a host = record {
    connection_id = cid;
    username = a.session.username;
    client_ip = i.client_ip;
    target_host = host;
    target_port = a.session.target_port;
    instance_id = cfg.tracker.instance_id;
    client_requested_protocols = some a.client_requested_protocols;
  }

  unfoldable pub relay : Text → Admitted → Text → Step RelayResult
  unfolding relay_bidirectional
  relay cid a host =
      let result =
        relay_bidirectional (context cid a host) i.plugins i.client_rounds i.backend_rounds in
      (do
        call session_start
        perform none (λ h. record h { world = i.meanwhile h.world })
        call session_end
        event cid (codes "relay_finished") (Tracker.relayed result)
        pure result)

  abbrev pub ended : RelayResult → Bool → Ended
  ended (to_client, to_backend, legs) admin_kill =
      let (status, reason) = outcome (any_killed legs) admin_kill i.duration_exceeded in
      record {
        status = status;
        disconnect_reason = some reason;
        bytes_to_client = to_client;
        bytes_to_backend = to_backend;
      }

  abbrev pub is_kill_set : Text → Handling State → Bool
  is_kill_set cid h = elim (get h.world.redis (Keys.kill_session cid)) [
    | none ↦ false
    | some _ ↦ true
  ]

  -- What becomes of the keys after `finish`.
  unfoldable pub clear_keys : Text → Text → Step (Unit {0})
  unfolding delete_session
  clear_keys cid token = (do
    when cfg.delete_token_on_disconnect
        (redis_call token_delete (λ s. delete_session R crypto ttls s token))
    delete_conn_token normal_end cid)

  -- The kill key is read only where a leg was killed.
  unfoldable pub conclude : Text → Text → RelayResult → Step (Unit {0})
  unfolding clear_keys
  conclude cid token result = (do
    admin_kill ←
        ask (if any_killed (legs_of result) then i.raises kill_get else none) (is_kill_set cid)
    finish normal_end cid (ended result admin_kill)
    clear_keys cid token)

  unfoldable pub serve : Admitted → Step (Unit {0})
  unfolding track connect relay conclude
  serve a = (do
    cid ← track a.session
    host ← connect cid a
    result ← relay cid a host
    conclude cid a.token result)

  unfoldable pub serve_admitted : Option Admitted → Step (Unit {0})
  unfolding serve
  serve_admitted none = pure tt
  serve_admitted (some a) = serve a

  -- The handlers of the `try`.
  abbrev pub dropped : Ended
  dropped = record {
    status = closed;
    disconnect_reason = some (codes "client_disconnect");
    bytes_to_client = 0;
    bytes_to_backend = 0;
  }

  abbrev pub failed : Ended
  failed = record {
    status = error;
    disconnect_reason = some (codes "exception");
    bytes_to_client = 0;
    bytes_to_backend = 0;
  }

  unfoldable pub finalize : Bool → Text → Step (Unit {0})
  finalize true cid = (do finish disconnect cid dropped; delete_conn_token disconnect cid)
  finalize false cid = (do
    event cid (codes "error") Tracker.empty
    finish failure cid failed
    delete_conn_token failure cid)

  unfoldable pub recover : Error → Handling State → Handling State
  unfolding finalize
  recover e h = elim h.tracked_cid [
    | none ↦ abort_writer h
    | some cid ↦ abort_writer (attempt (finalize (is_disconnect e) cid) h)
  ]

  unfoldable pub after_body : Result (Unit {0}) × Handling State → Handling State
  unfolding recover
  after_body (ok _, h) = h
  after_body (err e, h) = recover e h

  -- `__call__`, from the state in which nothing is tracked.
  unfoldable pub handle : World State → Handling State
  unfolding admit serve_admitted after_body
  handle w =
      after_body
        ((admit >>= serve_admitted) (record { world = w; tracked_cid = none; aborted = false }))
