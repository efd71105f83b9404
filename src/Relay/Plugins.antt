-- ===== src/Relay/Plugins.antt =====
-- services/rdp_relay/plugins: the plugins of main.py and the registry that calls them in order.
-- One list of plugin objects serves all connections.
pub mod Patching
pub mod Sharing
use rdpproxy_v.Prelude.{
  ℕ, ◌-◌, ◌*◌, Bool, true, false, ◌&&◌, Option, some, none, List, [], ◌∷◌, ltb, leb, if◌then◌else◌,
}
use rdpproxy_v.Prelude.Text.{Bytes, Text}
use rdpproxy_v.Errors.{Result, ok, err}
use rdpproxy_v.Rdp.Mcs.{patch_mcs_client, patch_mcs_server}

-- plugins/base.py: `extra["client_requested_protocols"]` is what the relay reads of `extra`.
pub record SessionContext : Type 0 where
  pub connection_id : Text
  pub username : Text
  pub client_ip : Text
  pub target_host : Text
  pub target_port : ℕ
  pub instance_id : Text
  pub client_requested_protocols : Option ℕ

-- plugins/session_monitor.py. The timeouts are in seconds, and 0 for what is not positive; times
-- are readings of `time.monotonic()` in nanoseconds.
pub record SessionMonitor : Type 0 where
  pub idle_timeout : ℕ
  pub max_session_duration : ℕ
  pub last_activity : ℕ
  pub started_at : ℕ

abbrev pub per_second : ℕ
per_second = 1000000000

unfoldable pub update_timeouts : SessionMonitor → ℕ → ℕ → SessionMonitor
update_timeouts m idle_timeout max_session_duration = record m {
  idle_timeout = idle_timeout;
  max_session_duration = max_session_duration;
}

unfoldable pub is_idle : SessionMonitor → ℕ → Bool
is_idle m now = ltb 0 m.idle_timeout && ltb (m.idle_timeout * per_second) (now - m.last_activity)

unfoldable pub is_duration_exceeded : SessionMonitor → ℕ → Bool
is_duration_exceeded m now =
    if leb m.max_session_duration 0
    then false
    else ltb (m.max_session_duration * per_second) (now - m.started_at)

-- plugins/mcs_patch.py
pub record McsPatch : Type 0 where
  pub client_first : Bool
  pub backend_first : Bool

-- A plugin object, with its state. The quality plugin has no packet hook of its own.
pub data Plugin : Type 0 where
  mcs_patch : McsPatch → Plugin
  session_monitor : SessionMonitor → Plugin
  connection_quality : Plugin

unfoldable pub start_plugin : Plugin → ℕ → Plugin
start_plugin (mcs_patch p) now = mcs_patch (record { client_first = true; backend_first = true })
start_plugin (session_monitor m) now =
    session_monitor (record m { last_activity = now; started_at = now })
start_plugin connection_quality now = connection_quality

-- A hook that raises has changed the plugin's state all the same.
unfoldable pub client_packet : Plugin → ℕ → Bytes → Result Bytes × Plugin
client_packet (mcs_patch p) now packet =
    if p.client_first
    then (patch_mcs_client packet, mcs_patch (record p { client_first = false }))
    else (ok packet, mcs_patch p)
client_packet (session_monitor m) now packet =
    (ok packet, session_monitor (record m { last_activity = now }))
client_packet connection_quality now packet = (ok packet, connection_quality)

unfoldable pub backend_packet : SessionContext → Plugin → ℕ → Bytes → Result Bytes × Plugin
backend_packet ctx (mcs_patch p) now packet =
    if p.backend_first
    then (
      patch_mcs_server packet ctx.client_requested_protocols,
      mcs_patch (record p { backend_first = false }),
    )
    else (ok packet, mcs_patch p)
backend_packet ctx (session_monitor m) now packet =
    (ok packet, session_monitor (record m { last_activity = now }))
backend_packet ctx connection_quality now packet = (ok packet, connection_quality)

-- `except Exception`: what a plugin that raises was given goes on to the next.
abbrev pub kept : Bytes → Result Bytes → Bytes
kept before (ok after) = after
kept before (err e) = before

-- plugins/registry.py
unfoldable pub on_session_start : List Plugin → ℕ → List Plugin
unfolding start_plugin
on_session_start [] now = []
on_session_start (p ∷ ps) now = start_plugin p now ∷ on_session_start ps now

unfoldable pub on_client_packet : List Plugin → ℕ → Bytes → Bytes × List Plugin
unfolding client_packet
on_client_packet [] now packet = (packet, [])
on_client_packet (p ∷ ps) now packet =
    let (r, p') = client_packet p now packet in
    let (out, ps') = on_client_packet ps now (kept packet r) in (out, p' ∷ ps')

unfoldable pub on_backend_packet : SessionContext → List Plugin → ℕ → Bytes → Bytes × List Plugin
unfolding backend_packet
on_backend_packet ctx [] now packet = (packet, [])
on_backend_packet ctx (p ∷ ps) now packet =
    let (r, p') = backend_packet ctx p now packet in
    let (out, ps') = on_backend_packet ctx ps now (kept packet r) in (out, p' ∷ ps')
