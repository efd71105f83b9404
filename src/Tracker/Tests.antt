-- ===== src/Tracker/Tests.antt =====
-- A connection that is killed while its relay is about to finish it.
use rdpproxy_v.Prelude.{◌≤◌, ◌≡◌, refl, Bool, true, false, Option, none, some, List, [], ◌∷◌}
use rdpproxy_v.Prelude.Text.{Text, codes, text_eq}
use rdpproxy_v.Effect.{◌>>=◌}
use rdpproxy_v.Redis.Memory.{memory, nothing, Table}
use rdpproxy_v.Tracker.{
  active, closed, killed, ConnectionHistory, World, TrackerConfig, Ended, finish,
}
use rdpproxy_v.Tracker.Kill.{kill_session}
use rdpproxy_v.Tracker.Rows.{row_of, stage}
use rdpproxy_v.Tracker.Steps.{Steps, kills, finishes, none_left, next, stage-Steps}

abbrev row : ConnectionHistory
row = record {
  id = codes "c1";
  instance_id = codes "relay";
  username = codes "ann";
  server_id = none;
  server_display = none;
  server_address = codes "host";
  server_port = 3389;
  client_ip = codes "10.0.0.9";
  ended_at = none;
  bytes_to_client = 0;
  bytes_to_backend = 0;
  disconnect_reason = none;
  status = active;
}

abbrev start_world : World Table
start_world = record { redis = nothing; history = row ∷ []; events = [] }

abbrev config : TrackerConfig
config = record { has_db = true; has_redis = true; instance_id = codes "relay" }

abbrev parse : Text → Option Text
parse t = some t

abbrev scan_nothing : Table → Text → List Text × Bool
scan_nothing s p = ([], false)

abbrev killed_world : World Table
killed_world = (kill_session memory parse (λ n. none) (codes "admin") (codes "c1") start_world).1

abbrev finish_args : Ended
finish_args = record {
  status = closed;
  disconnect_reason = none;
  bytes_to_client = 5;
  bytes_to_backend = 7;
}

abbrev end_world : World Table
end_world = (finish memory parse config none none 60 (codes "c1") finish_args killed_world).1

abbrev both : Steps memory parse scan_nothing start_world end_world
both =
    next start_world killed_world end_world
      (kills (λ n. none) (codes "admin") (codes "c1") start_world)
      (next killed_world end_world end_world
        (finishes config none none 60 (codes "c1") finish_args killed_world refl)
        (none_left end_world))

abbrev killed_row : ConnectionHistory
killed_row = record row { status = killed; disconnect_reason = some (codes "admin_kill") }

killed_first : killed_world.history ≡ killed_row ∷ []
unfolding kill_session ◌>>=◌ text_eq
killed_first = refl

-- The kill is what the row says in the end; the bytes are those of the relay.
finished_after :
    end_world.history
    ≡ record killed_row { ended_at = some 60; bytes_to_client = 5; bytes_to_backend = 7 } ∷ []
unfolding kill_session finish ◌>>=◌ text_eq
finished_after = refl

stage-Steps_example :
    (row' : ConnectionHistory) × (row_of (codes "c1") end_world.history ≡ some row')
    × (0 ≤ stage row'.status)
unfolding row_of text_eq
stage-Steps_example =
    stage-Steps memory parse scan_nothing start_world end_world (codes "c1") row both refl
