-- ===== src/Relay/Tests.antt =====
-- A relay with its three plugins, and its limit.
use rdpproxy_v.Prelude.{
  ◌+◌, ◌-◌, ◌≤◌, ◌≡◌, refl, arith, true, false, some, none, ◌<◌, ◌^◌, [], ◌∷◌, length,
}
use rdpproxy_v.Prelude.Text.{Bytes, codes}
use rdpproxy_v.Errors.{ok}
use rdpproxy_v.Rdp.Mcs.{target_of}
use rdpproxy_v.Relay.Plugins.{
  SessionContext, McsPatch, SessionMonitor, on_client_packet, on_backend_packet,
}
use rdpproxy_v.Relay.Plugins.Patching.{
  length-on_client_packet, length-on_backend_packet, on_client_packet_next,
}
use rdpproxy_v.Relay.Plugins.Sharing.{plugins_of}
use rdpproxy_v.Relay.Pipe.{Counts, client_to_backend, Round, pipe, received, pipe_lem}
use rdpproxy_v.Prelude.{Bool, Option}
use rdpproxy_v.Prelude.Text.{Text, text_eq}
use rdpproxy_v.Relay.ClientAddress.{RelayConfig, is_trusted_proxy}
use rdpproxy_v.Relay.Limit.{
  Limiter, initial, connect, reload, here, connects, raises, capacity, Grows-capacity, reload_twice,
}

abbrev patcher : McsPatch
patcher = record { client_first = false; backend_first = true }

abbrev monitor : SessionMonitor
monitor = record {
  idle_timeout = 3600;
  max_session_duration = 60;
  last_activity = 0;
  started_at = 0;
}

abbrev three : Bytes
three = 1 ∷ 2 ∷ 3 ∷ []

abbrev ctx : SessionContext
ctx = record {
  connection_id = codes "1";
  username = codes "al";
  client_ip = codes "9";
  target_host = codes "h";
  target_port = 3389;
  instance_id = codes "i";
  client_requested_protocols = some 3;
}

length-on_client_packet_example :
    length (on_client_packet (plugins_of patcher monitor) 5 three).0 ≡ length three
length-on_client_packet_example = length-on_client_packet (plugins_of patcher monitor) 5 three

length-on_backend_packet_example :
    length (on_backend_packet ctx (plugins_of patcher monitor) 5 three).0 ≡ length three
length-on_backend_packet_example =
    length-on_backend_packet ctx (plugins_of patcher monitor) 5 three (omega arith)

on_client_packet_next_example :
    (on_client_packet (on_client_packet (plugins_of patcher monitor) 5 three).1 6 (7 ∷ [])).0
    ≡ 7 ∷ []
on_client_packet_next_example =
    on_client_packet_next (plugins_of patcher monitor) 5 6 three (7 ∷ [])

three_allowed : (initial 2).conn_limit ≤ 3
unfolding initial
three_allowed = omega arith

Grows-capacity_example :
    (capacity (connect (reload (initial 2) 3)).0 ≡ (connect (reload (initial 2) 3)).0.conn_limit)
    × ((connect (reload (initial 2) 3)).0.active ≤ (connect (reload (initial 2) 3)).0.conn_limit)
Grows-capacity_example = Grows-capacity 2 (connects (raises 3 here three_allowed))

abbrev full : Limiter
full = record { permits = 0; conn_limit = 100; active = 100 }

reload_twice_example :
    ((reload (reload full 10) 100).conn_limit ≡ 100)
    × (capacity (reload (reload full 10) 100) ≡ 100 + (100 - 10))
reload_twice_example = reload_twice full 10 100 refl (omega arith) (omega arith)

abbrev round : Bytes → Round
round packet = record {
  kill_set = false;
  read = ok packet;
  meanwhile = λ ps. ps;
  now = 7;
  drain = none;
}

small : target_of ctx.client_requested_protocols < 2 ^ 32
small = omega arith

pipe_lem_example :
    Counts client_to_backend
      (pipe ctx client_to_backend (plugins_of patcher monitor) (round three ∷ []))
      (received (round three ∷ []))
pipe_lem_example =
    pipe_lem ctx client_to_backend small (plugins_of patcher monitor) (round three ∷ [])

-- Addresses as texts, and networks of one address.
abbrev as_is : Text → Option Text
as_is t = some t

abbrev only : Text → Text → Option Bool
only addr net = some (text_eq addr net)

abbrev hexless : Bytes → Text
hexless b = []

abbrev behind_proxy : RelayConfig
behind_proxy = record { proxy_protocol = true; trusted_proxies = codes "9" ∷ [] }

proxy_trusted : is_trusted_proxy as_is only behind_proxy (codes "9") ≡ true
unfolding is_trusted_proxy text_eq
proxy_trusted = refl
