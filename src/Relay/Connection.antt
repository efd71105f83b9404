-- ===== src/Relay/Connection.antt =====
-- services/rdp_relay/handler.py: what a connection meets, and what its handling keeps. What a call
-- outside raises is given by `raises`, what other tasks do while the bytes flow by `meanwhile`.
use rdpproxy_v.Prelude.{ℕ, Bool, true, false, Option, none, some, List, [], ◌∷◌}
use rdpproxy_v.Prelude.Text.{Bytes, Text, codes}
use rdpproxy_v.Errors.{Error, Result, incomplete_read, connection_reset}
use rdpproxy_v.Effect.{Action}
use rdpproxy_v.Credssp.Handshake.{Backend, Wait}
use rdpproxy_v.Tracker
use rdpproxy_v.Tracker.{World, TrackerConfig, Detail, Ended, Status, closed, error}
use rdpproxy_v.Relay.Plugins.{Plugin}
use rdpproxy_v.Relay.Pipe.{Round, RelayResult, LegResult, killed}

-- The calls that may raise. `finish` is called from three places.
pub data Place : Type 0 where
  normal_end disconnect failure : Place

pub data Call : Type 0 where
  start_commit start_set conn_token_set cc_drain start_tls session_start session_end kill_get : Call
  token_delete : Call
  event_commit : (event_type : Text) → Call
  finish_commit finish_delete conn_token_delete : Place → Call

-- What the handler reads of the settings and of the configuration: a setting that is not there is
-- `none`.
pub record HandlerConfig : Type 0 where
  pub tracker : TrackerConfig
  pub fingerprint_setting : Option Bool
  pub fingerprint_default : Bool
  pub delete_token_on_disconnect : Bool
  pub settings_ldap_domain : Option Text
  pub config_ldap_domain : Option Text

abbrev pub or_else : Option Bool → Bool → Bool
or_else none d = d
or_else (some b) d = b

abbrev pub text_or_empty : Option Text → Text
text_or_empty none = []
text_or_empty (some t) = t

-- What one connection meets.
pub record Incoming (S : Type 0) : Type 0 where
  -- What `_resolve_client_ip` gives, and the stream behind what it has read.
  pub client_ip : Text
  pub stream : Bytes
  pub others : List (S → S)
  pub cid : Text
  pub started_at : Text
  pub now : ℕ
  pub resolve : Text → Result Text
  pub backend : Backend
  pub echo : Wait
  pub answer : Wait
  pub plugins : List Plugin
  pub client_rounds : List Round
  pub backend_rounds : List Round
  pub meanwhile : World S → World S
  pub duration_exceeded : Bool
  pub raises : Call → Option Error

-- The world outside, `tracked_cid`, and whether the writer was aborted.
pub record Handling (S : Type 0) : Type 0 where
  pub world : World S
  pub tracked_cid : Option Text
  pub aborted : Bool

abbrev pub in_world : {S A : Type 0} → Action (World S) A → Action (Handling S) A
in_world m h = let (r, w) = m h.world in (r, record h { world = w })

abbrev pub abort_writer : {S : Type 0} → Handling S → Handling S
abort_writer h = record h { aborted = true }

-- `try: ... except Exception: logger.exception(...)`
abbrev pub attempt : {S : Type 0} → Action (Handling S) (Unit {0}) → Handling S → Handling S
attempt m h = (m h).1

-- The first `except` clause.
abbrev pub is_disconnect : Error → Bool
is_disconnect incomplete_read = true
is_disconnect connection_reset = true
is_disconnect _ = false

abbrev pub any_killed : List LegResult → Bool
any_killed [] = false
any_killed (leg ∷ legs) = elim leg.reason [ killed ↦ true | _ ↦ any_killed legs ]

abbrev pub legs_of : RelayResult → List LegResult
legs_of (_, _, legs) = legs

-- The status and the reason at the end of a relay.
abbrev pub outcome : (was_killed admin_kill duration_exceeded : Bool) → Status × Text
outcome true true d = (Tracker.killed, codes "admin_kill")
outcome true false true = (closed, codes "max_duration")
outcome true false false = (closed, codes "idle_timeout")
outcome false a d = (closed, codes "normal")
