-- ===== src/Rdp/Mcs.antt =====
-- libs/rdp/mcs.py: the plugin's patches of the MCS Connect messages.
pub mod Reads
pub mod Client
pub mod Server
use rdpproxy_v.Prelude.{
  ℕ, zero, suc, ◌+◌, ◌-◌, ◌^◌, Bool, ◌||◌, Option, none, some, List, [], ◌∷◌, ◌++◌, length, take,
  drop, ltb, leb, ◌==◌, if◌then◌else◌, not,
}
use rdpproxy_v.Prelude.Text.{Bytes}
use rdpproxy_v.Errors.{Result, ok, err, ◌>>=◌, map_result}
use rdpproxy_v.Pack.{pack_le32, unpack_le16_at, unpack_le32_at}
use rdpproxy_v.Rdp.X224.{protocol_ssl}

abbrev pub ts_ud_cs_core : ℕ
ts_ud_cs_core = 0xC001

abbrev pub ts_ud_sc_core : ℕ
ts_ud_sc_core = 0x0C01

-- struct.pack_into("<I", packet, pos, value)
unfoldable pub pack_le32_into : Bytes → ℕ → ℕ → Result Bytes
unfolding pack_le32
pack_le32_into packet pos value =
    map_result (λ field. take pos packet ++ (field ++ drop (pos + 4) packet)) (pack_le32 value)

-- The loop over the sizes of the fields before serverSelectedProtocol.
unfoldable pub skip_fields : List ℕ → ℕ → ℕ → Option ℕ
skip_fields [] pos end_ = some pos
skip_fields (size ∷ sizes) pos end_ =
    let rest = skip_fields sizes (pos + size) end_ in if ltb end_ (pos + size) then none else rest

abbrev pub field_sizes : List ℕ
field_sizes = 2 ∷ 2 ∷ 4 ∷ 2 ∷ 2 ∷ 2 ∷ 64 ∷ 1 ∷ 1 ∷ []

-- The field itself: read it, and turn SSL into HYBRID.
unfoldable pub patch_field : Bytes → ℕ → Result Bytes
unfolding unpack_le32_at pack_le32_into
patch_field packet pos = unpack_le32_at packet pos >>= λ current.
    if current == 1 then pack_le32_into packet pos 2 else ok packet

-- The last check: the four bytes of the field lie in the block.
unfoldable pub field_within : ℕ → Option ℕ → Option ℕ
field_within end_ none = none
field_within end_ (some pos) = if ltb end_ (pos + 4) then none else some pos

unfoldable pub field_position : Bytes → ℕ → ℕ → Option ℕ
unfolding skip_fields field_within
field_position packet core_payload_off core_block_len =
    let payload_end = core_payload_off + (core_block_len - 4) in
    let pos = core_payload_off + 128 in
    if ltb (length packet) payload_end
    then none
    else if ltb payload_end pos
    then none
    else field_within payload_end (skip_fields field_sizes pos payload_end)

unfoldable pub patch_at : Bytes → Option ℕ → Result (Option Bytes)
unfolding patch_field
patch_at packet none = ok none
patch_at packet (some pos) = map_result some (patch_field packet pos)

-- `none` is the answer None; else the packet, patched in place.
unfoldable pub patch_cs_core : Bytes → ℕ → ℕ → Result (Option Bytes)
unfolding field_position patch_at
patch_cs_core packet off block_len = patch_at packet (field_position packet off block_len)

-- One round of the loop of `patch_mcs_client`; `none` is `continue`.
unfoldable pub client_block : Bytes → ℕ → Result (Option Bytes)
unfolding unpack_le16_at patch_cs_core
client_block packet i = unpack_le16_at packet i >>= λ block_type.
    if not (block_type == ts_ud_cs_core)
    then ok none
    else (unpack_le16_at packet (i + 2) >>= λ block_len.
        if ltb block_len 132 || ltb (length packet) (i + block_len)
        then ok none
        else patch_cs_core packet (i + 4) block_len)

-- One round of the loop of `patch_mcs_server`.
unfoldable pub server_block : ℕ → Bytes → ℕ → Result (Option Bytes)
unfolding unpack_le16_at unpack_le32_at pack_le32_into
server_block target packet i = unpack_le16_at packet i >>= λ block_type.
    if not (block_type == ts_ud_sc_core)
    then ok none
    else (unpack_le16_at packet (i + 2) >>= λ block_len.
        if ltb block_len 12 || ltb (length packet) (i + block_len)
        then ok none
        else (unpack_le32_at packet (i + 8) >>= λ current.
            if current == target
            then ok (some packet)
            else map_result some (pack_le32_into packet (i + 8) target)))

-- `for i in range(len(packet) - 3)`, with the rounds that are left, and the answer after the loop.
unfoldable pub scan : (Bytes → ℕ → Result (Option Bytes)) → Bytes → ℕ → ℕ → Result Bytes
scan round packet i zero = ok packet
scan round packet i (suc n) =
    let rest = scan round packet (suc i) n in
    round packet i >>= λ r. elim r [ none ↦ rest | some patched ↦ ok patched ]

unfoldable pub patch_mcs_client : Bytes → Result Bytes
unfolding scan client_block
patch_mcs_client packet = scan client_block packet 0 (length packet - 3)

abbrev pub target_of : Option ℕ → ℕ
target_of none = protocol_ssl
target_of (some p) = p

unfoldable pub patch_mcs_server : Bytes → Option ℕ → Result Bytes
unfolding scan server_block
patch_mcs_server packet requested =
    scan (server_block (target_of requested)) packet 0 (length packet - 3)
