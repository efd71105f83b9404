-- ===== src/Relay/Plugins/Patching.antt =====
-- What the chain of plugins does to the packets.
use rdpproxy_v.Prelude.{
  ℕ, ◌^◌, ◌<◌, ◌≡◌, refl, ap, ◌∙◌, false, inl, inr, Option, List, [], ◌∷◌, length, All, Bool-cases,
}
use rdpproxy_v.Prelude.Text.{Bytes}
use rdpproxy_v.Errors.{Result, ok}
use rdpproxy_v.Rdp.Mcs.{patch_mcs_client, patch_mcs_server, target_of}
use rdpproxy_v.Rdp.Mcs.Reads.{length-overwrite}
use rdpproxy_v.Rdp.Mcs.Client.{ClientOutcome, patch_mcs_client_lem}
use rdpproxy_v.Rdp.Mcs.Server.{ServerOutcome, patch_mcs_server_lem, le32_bytes}
use rdpproxy_v.Relay.Plugins.{
  SessionContext, Plugin, mcs_patch, session_monitor, connection_quality, client_packet,
  backend_packet, kept, on_client_packet, on_backend_packet,
}

length-client_patch :
    (p : Bytes) → (q : Bytes) × (patch_mcs_client p ≡ ok q) × (length q ≡ length p)
length-client_patch p = let (q, e, out) = patch_mcs_client_lem p in (q, e, same q out)
  where
    same : (q : Bytes) → ClientOutcome p q → length q ≡ length p
    same q (inl e) = ap length e
    same q (inr (pos, fits, _, e)) =
        ap length e ∙ length-overwrite p pos (2 ∷ 0 ∷ 0 ∷ 0 ∷ []) refl fits

length-server_patch :
    (p : Bytes) (o : Option ℕ)
    → target_of o < 2 ^ 32
    → (q : Bytes) × (patch_mcs_server p o ≡ ok q) × (length q ≡ length p)
length-server_patch p o h = let (q, e, out) = patch_mcs_server_lem p o h in (q, e, same q out)
  where
    same : (q : Bytes) → ServerOutcome (target_of o) p q → length q ≡ length p
    same q (inl e) = ap length e
    same q (inr (pos, fits, _, e)) =
        ap length e ∙ length-overwrite p pos (le32_bytes (target_of o)) refl fits

length-kept_client :
    (p : Plugin) (now : ℕ) (packet : Bytes)
    → length (kept packet (client_packet p now packet).0) ≡ length packet
unfolding client_packet
length-kept_client (mcs_patch s) now packet = elim (Bool-cases s.client_first) [
  | inl first ↦ let (q, e, l) = length-client_patch packet in rw (first, e) l
  | inr later ↦ rw later refl
]
length-kept_client (session_monitor m) now packet = refl
length-kept_client connection_quality now packet = refl

length-kept_backend :
    (ctx : SessionContext) (p : Plugin) (now : ℕ) (packet : Bytes)
    → target_of ctx.client_requested_protocols < 2 ^ 32
    → length (kept packet (backend_packet ctx p now packet).0) ≡ length packet
unfolding backend_packet
length-kept_backend ctx (mcs_patch s) now packet h = elim (Bool-cases s.backend_first) [
  | inl first ↦
      let (q, e, l) = length-server_patch packet ctx.client_requested_protocols h in rw (first, e) l
  | inr later ↦ rw later refl
]
length-kept_backend ctx (session_monitor m) now packet h = refl
length-kept_backend ctx connection_quality now packet h = refl

-- Whatever the plugins, in whatever state, the chain changes no client packet's length.
pub length-on_client_packet :
    (ps : List Plugin) (now : ℕ) (packet : Bytes)
    → length (on_client_packet ps now packet).0 ≡ length packet
unfolding on_client_packet
length-on_client_packet [] now packet = refl
length-on_client_packet (p ∷ ps) now packet =
    length-on_client_packet ps now (kept packet (client_packet p now packet).0)
    ∙ length-kept_client p now packet

-- Whatever the plugins, in whatever state, the chain changes no backend packet's length, if the
-- session's protocols are a 32-bit number.
pub length-on_backend_packet :
    (ctx : SessionContext) (ps : List Plugin) (now : ℕ) (packet : Bytes)
    → target_of ctx.client_requested_protocols < 2 ^ 32
    → length (on_backend_packet ctx ps now packet).0 ≡ length packet
unfolding on_backend_packet
length-on_backend_packet ctx [] now packet h = refl
length-on_backend_packet ctx (p ∷ ps) now packet h =
    length-on_backend_packet ctx ps now (kept packet (backend_packet ctx p now packet).0) h
    ∙ length-kept_backend ctx p now packet h

-- No MCS plugin of the list still waits for a client packet.
abbrev pub HasSeenClient : Plugin → Type 0
HasSeenClient (mcs_patch s) = s.client_first ≡ false
HasSeenClient _ = Unit

seen_packet :
    (p : Plugin) (now : ℕ) (packet : Bytes)
    → HasSeenClient p
    → client_packet p now packet ≡ (ok packet, (client_packet p now packet).1)
unfolding client_packet
seen_packet (mcs_patch s) now packet h = rw h refl
seen_packet (session_monitor m) now packet h = refl
seen_packet connection_quality now packet h = refl

client_packet-HasSeenClient :
    (p : Plugin) (now : ℕ) (packet : Bytes) → HasSeenClient (client_packet p now packet).1
unfolding client_packet
client_packet-HasSeenClient (mcs_patch s) now packet = elim (Bool-cases s.client_first) [
  | inl first ↦ rw first refl
  | inr later ↦ rw later refl
]
client_packet-HasSeenClient (session_monitor m) now packet = tt
client_packet-HasSeenClient connection_quality now packet = tt

chain_seen :
    (ps : List Plugin) (now : ℕ) (packet : Bytes)
    → All HasSeenClient (on_client_packet ps now packet).1
unfolding on_client_packet
chain_seen [] now packet = tt
chain_seen (p ∷ ps) now packet = (
  client_packet-HasSeenClient p now packet,
  chain_seen ps now (kept packet (client_packet p now packet).0),
)

seen_unchanged :
    (ps : List Plugin) (now : ℕ) (packet : Bytes)
    → All HasSeenClient ps
    → (on_client_packet ps now packet).0 ≡ packet
unfolding on_client_packet
seen_unchanged [] now packet h = refl
seen_unchanged (p ∷ ps) now packet h =
    ap (λ (r : Result Bytes × Plugin). (on_client_packet ps now (kept packet r.0)).0)
      (seen_packet p now packet h.0)
    ∙ seen_unchanged ps now packet h.1

-- Behind a first client packet the chain passes the next one on unchanged, with any plugins and
-- whatever the two packets are, as long as no session starts between them.
pub on_client_packet_next :
    (ps : List Plugin) (first_at now : ℕ) (first packet : Bytes)
    → (on_client_packet (on_client_packet ps first_at first).1 now packet).0 ≡ packet
on_client_packet_next ps first_at now first packet =
    seen_unchanged (on_client_packet ps first_at first).1 now packet (chain_seen ps first_at first)
