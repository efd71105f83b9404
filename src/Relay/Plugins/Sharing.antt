-- ===== src/Relay/Plugins/Sharing.antt =====
-- One list of plugin objects serves all connections: what one session's packets and its start do
-- to the others.
use rdpproxy_v.Prelude.{ℕ, ◌*◌, ◌+◌, ◌≤◌, ◌≡◌, refl, false, List, [], ◌∷◌, arith}
use rdpproxy_v.Prelude.Text.{Bytes, Text}
use rdpproxy_v.Rdp.Mcs.{patch_mcs_client}
use rdpproxy_v.Relay.Plugins.{
  Plugin, McsPatch, SessionMonitor, mcs_patch, session_monitor, connection_quality, per_second,
  is_duration_exceeded, start_plugin, on_session_start, on_client_packet, kept,
}

-- What the relay's connections do to the plugins, by connection: it starts, or has a packet.
pub data Event : Type 0 where
  starts : Text → ℕ → Event
  client_sends : Text → ℕ → Bytes → Event

unfoldable pub apply : List Plugin → Event → List Plugin
unfolding on_session_start on_client_packet
apply ps (starts connection now) = on_session_start ps now
apply ps (client_sends connection now packet) = (on_client_packet ps now packet).1

unfoldable pub run : List Plugin → List Event → List Plugin
unfolding apply
run ps [] = ps
run ps (e ∷ es) = run (apply ps e) es

-- The plugins of main.py.
abbrev pub plugins_of : McsPatch → SessionMonitor → List Plugin
plugins_of p m = mcs_patch p ∷ session_monitor m ∷ connection_quality ∷ []

-- Whatever the plugins' states (so also if the session's first packet has been patched before):
-- once another session starts, the next packet that any session's client sends is patched as a
-- first packet.
pub on_client_packet-start :
    (p : McsPatch) (m : SessionMonitor) (other : Text) (t now : ℕ) (packet : Bytes)
    → (on_client_packet (run (plugins_of p m) (starts other t ∷ [])) now packet).0
      ≡ kept packet (patch_mcs_client packet)
unfolding run on_client_packet
on_client_packet-start p m other t now packet = refl

-- The start of any session restarts the clock of all: until the maximal duration after it, no
-- session counts as too long, whenever it started.
pub is_duration_exceeded-start :
    (m : SessionMonitor) (t now : ℕ)
    → now ≤ t + m.max_session_duration * per_second
    → (m' : SessionMonitor) × (start_plugin (session_monitor m) t ≡ session_monitor m')
      × (is_duration_exceeded m' now ≡ false)
unfolding start_plugin is_duration_exceeded
is_duration_exceeded-start m t now h =
    (record m { last_activity = t; started_at = t }, refl, ground arith)
