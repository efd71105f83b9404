-- ===== src/Relay/Handler/Tests.antt =====
-- Connections that the handler serves and refuses.
use rdpproxy_v.Prelude.{◌≡◌, refl, true, false, Option, none, some, [], ◌∷◌, ◌++◌}
use rdpproxy_v.Prelude.Text.{Bytes, Text, codes, text_eq}
use rdpproxy_v.Errors.{ok}
use rdpproxy_v.Crypto.Tagged.{tagged}
use rdpproxy_v.Redis.Values
use rdpproxy_v.Redis.Keys
use rdpproxy_v.Redis.Memory.{memory, nothing, put, Table}
use rdpproxy_v.Sessions.{Ttls, create_session}
use rdpproxy_v.Rdp.Tpkt.{read_tpkt}
use rdpproxy_v.Rdp.X224.{extract_cookie_token}
use rdpproxy_v.Credssp.Handshake.{in_time}
use rdpproxy_v.Credssp.Sample.{ntlm, backend}
use rdpproxy_v.Tracker.{World, rowcount}
use rdpproxy_v.Tracker.Finished.{NoneOpen}
use rdpproxy_v.Relay.Handler.{handle}
use rdpproxy_v.Relay.Connection.{HandlerConfig, Incoming}
use rdpproxy_v.Relay.Handler.Ends.{handle-NoneOpen}
use rdpproxy_v.Relay.Handler.Refuses.{handle_refused}

abbrev parse : Text → Option Text
parse t = some t

abbrev ttls : Ttls
ttls = record { web_ttl = 600; rdp_token_ttl = 300; web_idle_ttl = 60 }

abbrev decode : Bytes → Text
decode b = b

abbrev config : HandlerConfig
config = record {
  tracker = record { has_db = true; has_redis = true; instance_id = codes "relay" };
  fingerprint_setting = none;
  fingerprint_default = true;
  delete_token_on_disconnect = false;
  settings_ldap_domain = none;
  config_ldap_domain = none;
}

-- The request names the token `T`.
abbrev request : Bytes
request = codes "Cookie: msts=T" ++ (13 ∷ 10 ∷ [])

abbrev incoming : Incoming Table
incoming = record {
  client_ip = codes "10.0.0.9";
  stream = 3 ∷ 0 ∷ 0 ∷ 20 ∷ request;
  others = [];
  cid = codes "c1";
  started_at = codes "t";
  now = 60;
  resolve = λ host. ok host;
  backend = backend;
  echo = in_time;
  answer = in_time;
  plugins = [];
  client_rounds = [];
  backend_rounds = [];
  meanwhile = λ w. w;
  duration_exceeded = false;
  raises = λ c. none;
}

abbrev payload : Values.TokenPayload
payload = record {
  username = codes "ann";
  password_enc = codes "p";
  target_host = codes "host";
  target_port = 3389;
  fingerprint = some (codes "other");
  server_id = none;
  server_display = none;
}

abbrev world : World Table
world = record {
  redis = put nothing (Keys.token (codes "T")) (some (Values.token payload, 300));
  history = [];
  events = [];
}

-- The portal has just issued the token.
abbrev issued : World Table
issued = record {
  redis =
      (create_session memory tagged ttls (codes "T") (codes "nonce-nonce!") nothing (codes "ann")
        (codes "pw") (codes "host") 3389 none none).1;
  history = [];
  events = [];
}

handle-NoneOpen_example :
    NoneOpen
      (codes "c1")
      (handle memory tagged ttls parse ntlm decode config incoming issued).world.history
unfolding rowcount
handle-NoneOpen_example =
    handle-NoneOpen memory tagged ttls parse ntlm decode config incoming refl refl refl (λ p. refl)
      issued refl

handle_refused_example :
    handle memory tagged ttls parse ntlm decode config incoming world
    ≡ record { world = world; tracked_cid = none; aborted = true }
unfolding text_eq read_tpkt extract_cookie_token
handle_refused_example =
    handle_refused memory tagged ttls parse ntlm decode config incoming world request (codes "T")
      (codes "other") [] payload refl refl refl refl refl refl refl
