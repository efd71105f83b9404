-- ===== src/Tracker.antt =====
-- libs/redis_store/active_tracker.py: the history of the connections in the database, and the list
-- of the active ones in Redis. SCAN is a parameter.
pub mod Kill
pub mod Rows
pub mod Steps
pub mod Finished
mod Tests
use rdpproxy_v.Prelude.{
  ℕ, suc, ◌+◌, ◌*◌, Bool, true, false, ◌&&◌, not, Option, none, some, is_some, List, [], ◌∷◌, ◌++◌,
  map, length, ◌==◌, if◌then◌else◌,
}
use rdpproxy_v.Prelude.Text.{Text, codes, text_eq}
use rdpproxy_v.Errors.{Error, Result, ok, err}
use rdpproxy_v.Effect.{Action, pure, perform, when, ◌>>=◌, ◌>>◌}
use rdpproxy_v.Redis.{Redis}
use rdpproxy_v.Redis.Values
use rdpproxy_v.Redis.Keys
use rdpproxy_v.Relay.Pipe.{RelayResult}

pub data Status : Type 0 where
  active closed error killed : Status

abbrev pub is_active : Status → Bool
is_active active = true
is_active _ = false

abbrev pub is_killed : Status → Bool
is_killed killed = true
is_killed _ = false

-- A row of `connection_history`; a UUID is its text in the canonical form.
pub record ConnectionHistory : Type 0 where
  pub id : Text
  pub instance_id : Text
  pub username : Text
  pub server_id : Option Text
  pub server_display : Option Text
  pub server_address : Text
  pub server_port : ℕ
  pub client_ip : Text
  pub ended_at : Option ℕ
  pub bytes_to_client : ℕ
  pub bytes_to_backend : ℕ
  pub disconnect_reason : Option Text
  pub status : Status

-- The `detail` objects that the handler gives.
pub data Detail : Type 0 where
  empty : Detail
  target : Text → ℕ → Detail
  resolved : (host ip : Text) → Detail
  relayed : RelayResult → Detail

pub record ConnectionEvent : Type 0 where
  pub connection_id : Text
  pub event_type : Text
  pub detail : Detail

-- Redis, and the two tables.
pub record World (S : Type 0) : Type 0 where
  pub redis : S
  pub history : List ConnectionHistory
  pub events : List ConnectionEvent

-- Whether the tracker was given a database and a Redis client.
pub record TrackerConfig : Type 0 where
  pub has_db : Bool
  pub has_redis : Bool
  pub instance_id : Text

-- The arguments of `start`.
pub record Started : Type 0 where
  pub username : Text
  pub server_id : Option Text
  pub server_display : Option Text
  pub server_address : Text
  pub server_port : ℕ
  pub client_ip : Text

-- The arguments of `finish`, behind the connection.
pub record Ended : Type 0 where
  pub status : Status
  pub disconnect_reason : Option Text
  pub bytes_to_client : ℕ
  pub bytes_to_backend : ℕ

-- The first UPDATE of `finish`, and its second.
abbrev pub closes : Text → ConnectionHistory → Bool
closes id row = text_eq row.id id && not (is_killed row.status)

abbrev pub is_killed_row : Text → ConnectionHistory → Bool
is_killed_row id row = text_eq row.id id && is_killed row.status

abbrev pub close_row : Text → ℕ → Ended → ConnectionHistory → ConnectionHistory
close_row id now e row =
    if closes id row
    then record row {
      ended_at = some now;
      status = e.status;
      disconnect_reason = e.disconnect_reason;
      bytes_to_client = e.bytes_to_client;
      bytes_to_backend = e.bytes_to_backend;
    }
    else row

abbrev pub end_killed_row : Text → ℕ → Ended → ConnectionHistory → ConnectionHistory
end_killed_row id now e row =
    if is_killed_row id row
    then record row {
      ended_at = some now;
      bytes_to_client = e.bytes_to_client;
      bytes_to_backend = e.bytes_to_backend;
    }
    else row

-- How many rows an UPDATE matches.
unfoldable pub rowcount : (ConnectionHistory → Bool) → List ConnectionHistory → ℕ
rowcount p [] = 0
rowcount p (row ∷ rows) = let rest = rowcount p rows in if p row then suc rest else rest

unfoldable pub finish_rows : Text → ℕ → Ended → List ConnectionHistory → List ConnectionHistory
unfolding rowcount
finish_rows id now e rows =
    if rowcount (closes id) rows == 0
    then map (end_killed_row id now e) rows
    else map (close_row id now e) rows

-- The WHERE of the reconciliation, and what it sets.
abbrev pub is_stale : Text → ConnectionHistory → Bool
is_stale instance_id row =
    text_eq row.instance_id instance_id && is_active row.status && not (is_some row.ended_at)

abbrev pub reconcile_row : Text → ℕ → ConnectionHistory → ConnectionHistory
reconcile_row instance_id now row =
    if is_stale instance_id row
    then record row {
      ended_at = some now;
      status = error;
      disconnect_reason = some (codes "relay-restart");
    }
    else row

module _ (R : Redis) (parse_uuid : Text → Option Text) (cfg : TrackerConfig) where
  open R use {State, setex, delete}

  abbrev pub active_key : Text → Text
  active_key id = Keys.active_session cfg.instance_id id

  abbrev pub new_row : Text → Started → ConnectionHistory
  new_row id a = record {
    id = id;
    instance_id = cfg.instance_id;
    username = a.username;
    server_id = elim a.server_id [ none ↦ none | some t ↦ parse_uuid t ];
    server_display = a.server_display;
    server_address = a.server_address;
    server_port = a.server_port;
    client_ip = a.client_ip;
    ended_at = none;
    bytes_to_client = 0;
    bytes_to_backend = 0;
    disconnect_reason = none;
    status = active;
  }

  abbrev pub active_payload : Text → Started → Values.ActivePayload
  active_payload started_at a = record {
    username = a.username;
    server_display = a.server_display;
    server_address = a.server_address;
    server_port = a.server_port;
    client_ip = a.client_ip;
    started_at = started_at;
    instance_id = cfg.instance_id;
    connection_quality = none;
  }

  -- `cid` is the new UUID. The exceptions are those of the commit and of the SET.
  unfoldable pub start :
      (on_commit on_set : Option Error) (cid started_at : Text)
      → Started
      → Action (World State) Text
  start on_commit on_set cid started_at a = (do
    when cfg.has_db
        (perform on_commit (λ w. record w { history = w.history ++ (new_row cid a ∷ []) }))
    when cfg.has_redis (
        perform on_set (λ w. record w {
          redis =
              setex w.redis (active_key cid) (24 * 3600)
                (Values.active (active_payload started_at a));
        }))
    pure cid)

  unfoldable pub event :
      (on_commit : Option Error)
      → (connection_id event_type : Text) → Detail
      → Action (World State) (Unit {0})
  event on_commit connection_id event_type detail = when cfg.has_db (
      perform on_commit (λ w. record w {
        events =
            w.events
            ++ (record { connection_id = connection_id; event_type = event_type; detail = detail }
                ∷ []);
      }))

  unfoldable pub finish :
      (on_commit on_delete : Option Error) (now : ℕ) (connection_id : Text)
      → Ended
      → Action (World State) (Unit {0})
  unfolding finish_rows
  finish on_commit on_delete now connection_id e = (do
    when cfg.has_db
        (perform on_commit (λ w. record w { history = finish_rows connection_id now e w.history }))
    when cfg.has_redis
        (perform on_delete (λ w. record w { redis = delete w.redis (active_key connection_id) })))

  -- The keys that SCAN gives for a pattern, and whether an exception ends the loop over them.
  module _ (scan : State → Text → List Text × Bool) where
    unfoldable pub delete_all : List Text → State → State
    delete_all [] s = s
    delete_all (k ∷ ks) s = delete_all ks (delete s k)

    abbrev pub flush_patterns : List Text
    flush_patterns =
        (active_key [] ++ codes "*")
        ∷ codes "rdp:token:*"
        ∷ codes "rdp:conn-token:*"
        ∷ codes "rdp:kill:*"
        ∷ codes "rdp:web:*"
        ∷ codes "rdp:admin:web:*"
        ∷ []

    -- An exception leaves the patterns behind it, and is logged.
    unfoldable pub flush : List Text → ℕ → State → ℕ × State
    unfolding delete_all
    flush [] n s = (n, s)
    flush (p ∷ ps) n s =
        let (found, raises) = scan s p in
        let rest = flush ps (n + length found) (delete_all found s) in
        if raises then (n + length found, delete_all found s) else rest

    unfoldable pub reconcile_stale_active_on_startup :
        (on_commit : Option Error) (now : ℕ) → Action (World State) (ℕ × ℕ)
    unfolding flush rowcount
    reconcile_stale_active_on_startup on_commit now = (λ w.
        (do
          when cfg.has_db (
              perform on_commit
                (λ w. record w { history = map (reconcile_row cfg.instance_id now) w.history }))
          (λ w'.
              let (deleted, s) =
                (if cfg.has_redis then flush flush_patterns 0 w'.redis else (0, w'.redis)) in
              (
                ok (
                  if cfg.has_db then rowcount (is_stale cfg.instance_id) w.history else 0,
                  deleted,
                ),
                record w' { redis = s },
              )))
          w)
