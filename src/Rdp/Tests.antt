-- ===== src/Rdp/Tests.antt =====
-- Frames, a cookie and MCS packets.
use rdpproxy_v.Prelude.{ℕ, suc, ◌+◌, ◌<◌, ◌≡◌, ◌≢◌, refl, arith, some, [], ◌∷◌, All}
use rdpproxy_v.Prelude.Text.{Bytes, Text, codes}
use rdpproxy_v.Errors.{ok}
use rdpproxy_v.Pack.{unpack_le16_at, unpack_le32_at}
use rdpproxy_v.Rdp.X224.Cookie.{IsToken}
use rdpproxy_v.Rdp.Mcs.{patch_mcs_client, patch_mcs_server, target_of, ts_ud_sc_core}
use rdpproxy_v.Rdp.Mcs.Client.{ClientOutcome, patch_mcs_client_lem}
use rdpproxy_v.Rdp.Mcs.Server.{patch_mcs_server_sets}

abbrev three : Bytes
three = 1 ∷ 2 ∷ 3 ∷ []

abbrev as_ascii : Bytes → Text
as_ascii b = b

as_ascii_id : (s : Bytes) → All (λ c. c < 128) s → as_ascii s ≡ s
as_ascii_id s h = refl

seven : suc 6 ≢ 67
seven e = omega arith

ab_IsToken : IsToken (codes "aB")
ab_IsToken = record { chars = (refl, (refl, tt)); non_empty = omega arith }

abbrev core : Bytes
core = 0x01 ∷ 0x0C ∷ 12 ∷ 0 ∷ 4 ∷ 0 ∷ 8 ∷ 0 ∷ 0 ∷ 0 ∷ 0 ∷ 0 ∷ []

patch_mcs_client_lem_example : (q : Bytes) × (patch_mcs_client core ≡ ok q) × ClientOutcome core q
patch_mcs_client_lem_example = patch_mcs_client_lem core

none_before : (j t : ℕ) → j < 0 → unpack_le16_at core j ≡ ok t → t ≢ ts_ud_sc_core
none_before j t h e = absurd (omega arith)

core_type : unpack_le16_at core 0 ≡ ok ts_ud_sc_core
unfolding unpack_le16_at
core_type = refl

core_length : unpack_le16_at core (0 + 2) ≡ ok 12
unfolding unpack_le16_at
core_length = refl

patch_mcs_server_sets_example :
    (q : Bytes) × (patch_mcs_server core (some 3) ≡ ok q)
    × (unpack_le32_at q (0 + 8) ≡ ok (target_of (some 3)))
patch_mcs_server_sets_example =
    patch_mcs_server_sets core (some 3) 0 12 (omega arith) none_before core_type core_length
      (omega arith) (omega arith)
