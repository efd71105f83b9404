-- ===== src/Rdp/Mcs/Server.antt =====
-- The patch of the server's message.
use rdpproxy_v.Prelude.{
  ℕ, zero, suc, ◌+◌, ◌-◌, ◌/◌, ◌%◌, ◌^◌, ◌≤◌, ◌<◌, ◌≡◌, ◌≢◌, refl, sym, ap, ◌∙◌, ◌⊎◌, inl, inr,
  false, ◌||◌, Option, none, some, [], ◌∷◌, ◌++◌, length, take, drop, length-take, drop-append,
  arith, ltb, ◌==◌, not, ==_iff, Bool-cases,
}
use rdpproxy_v.Prelude.Text.{Bytes}
use rdpproxy_v.Errors.{Result, ok, map_result}
use rdpproxy_v.Pack.{unpack_le16_at, unpack_le32_at}
use rdpproxy_v.Pack.Laws.{pack_le32_lem, le32_lem}
use rdpproxy_v.Rdp.Mcs.{
  scan, server_block, pack_le32_into, patch_mcs_server, target_of, ts_ud_sc_core,
}
use rdpproxy_v.Rdp.Mcs.Reads.{
  unpack_le16_total, unpack_le32_total, Yields, Yields-none, Yields-some, Yields-if, Yields-bind,
  scan_lem, overwrite,
}

abbrev pub le32_bytes : ℕ → Bytes
le32_bytes v = v % 256 ∷ v / 256 % 256 ∷ v / 65536 % 256 ∷ v / 16777216 ∷ []

-- The packet itself, or the packet with one field set to the target.
abbrev pub ServerOutcome : ℕ → Bytes → Bytes → Type 0
ServerOutcome target p q =
    (q ≡ p)
    ⊎ ((pos : ℕ) × (pos + 4 ≤ length p)
        × (unpack_le32_at q pos ≡ ok target)
        × (q ≡ overwrite p pos (le32_bytes target)))

read-overwrite :
    (p : Bytes) (pos v : ℕ)
    → pos + 4 ≤ length p
    → v < 2 ^ 32
    → unpack_le32_at (overwrite p pos (le32_bytes v)) pos ≡ ok v
unfolding unpack_le32_at
read-overwrite p pos v h fits =
    let e : length (take pos p) ≡ pos = length-take pos p (omega arith) in
    let behind : drop pos (overwrite p pos (le32_bytes v)) ≡ le32_bytes v ++ drop (pos + 4) p =
      ap (λ (k : ℕ). drop k (overwrite p pos (le32_bytes v))) (sym e)
      ∙ drop-append (take pos p) (le32_bytes v ++ drop (pos + 4) p) in
    rw behind (ap ok (le32_lem v fits))

pack_le32_into_lem :
    (p : Bytes) (pos v : ℕ)
    → v < 2 ^ 32
    → pack_le32_into p pos v ≡ ok (overwrite p pos (le32_bytes v))
unfolding pack_le32_into
pack_le32_into_lem p pos v h = rw (pack_le32_lem v h) refl

module _ (target : ℕ) (fits : target < 2 ^ 32) (p : Bytes) where
  write_target :
      (pos : ℕ)
      → pos + 4 ≤ length p
      → Yields (ServerOutcome target p) (map_result some (pack_le32_into p pos target))
  write_target pos h =
      rw (pack_le32_into_lem p pos target fits)
        (Yields-some _ (inr (pos, h, read-overwrite p pos target h fits, refl)))

  Yields-server_block :
      (i : ℕ) → i + 4 ≤ length p → Yields (ServerOutcome target p) (server_block target p i)
  unfolding server_block
  Yields-server_block i h =
      Yields-bind (unpack_le16_at p i) _ (unpack_le16_total p i (omega arith)) λ t _.
        Yields-if (not (t == ts_ud_sc_core)) _ _ (λ _. Yields-none)
          λ _.
            Yields-bind (unpack_le16_at p (i + 2)) _ (unpack_le16_total p (i + 2) (omega arith))
              λ len _.
                Yields-if (ltb len 12 || ltb (length p) (i + len)) _ _ (λ _. Yields-none)
                  λ inside.
                    Yields-bind (unpack_le32_at p (i + 8)) _
                      (unpack_le32_total p (i + 8) (room len inside))
                      λ current _.
                        Yields-if (current == target) _ _ (λ _. Yields-some p (inl refl))
                          λ _. write_target (i + 8) (room len inside)
    where
      room : (len : ℕ) → (ltb len 12 || ltb (length p) (i + len)) ≡ false → i + 8 + 4 ≤ length p
      room len e = ground arith

-- For a target of 32 bits, as the client's request gives it, or the default: the patch ends
-- normally on every packet, and changes nothing or exactly four bytes, which then read the target.
pub patch_mcs_server_lem :
    (p : Bytes) (requested : Option ℕ)
    → target_of requested < 2 ^ 32
    → (q : Bytes) × (patch_mcs_server p requested ≡ ok q) × ServerOutcome (target_of requested) p q
unfolding patch_mcs_server
patch_mcs_server_lem p requested fits =
    scan_lem (server_block (target_of requested)) p
      (Yields-server_block (target_of requested) fits p) (inl refl) 0 (length p - 3) (omega arith)

-- The loop answers with the first round that answers.
scan_first :
    (round : Bytes → ℕ → Result (Option Bytes)) (p q : Bytes) (d i n : ℕ)
    → ((j : ℕ) → j < i + d → round p j ≡ ok none)
    → round p (i + d) ≡ ok (some q)
    → d < n
    → scan round p i n ≡ ok q
unfolding scan
scan_first round p q d i zero skip hit h = elim h [ ]
scan_first round p q zero i (suc n) skip hit h =
    let e : i ≡ i + 0 = omega arith in rw (ap (round p) e ∙ hit, scan) refl
scan_first round p q (suc d) i (suc n) skip hit h =
    let e : suc i + d ≡ i + suc d = omega arith in
    rw (skip i (omega arith), scan)
      (scan_first round p q d (suc i) n (λ j k. skip j (omega arith)) (ap (round p) e ∙ hit)
        (omega arith))

not_core :
    (target : ℕ) (p : Bytes) (j : ℕ) {t : ℕ}
    → unpack_le16_at p j ≡ ok t
    → t ≢ ts_ud_sc_core
    → server_block target p j ≡ ok none
unfolding server_block
not_core target p j {t} e ne = let b : (t == ts_ud_sc_core) ≡ false = ground arith in rw (e, b) refl

core_round :
    (target : ℕ) (p : Bytes) (i len : ℕ)
    → target < 2 ^ 32
    → unpack_le16_at p i ≡ ok ts_ud_sc_core
    → unpack_le16_at p (i + 2) ≡ ok len
    → 12 ≤ len
    → i + len ≤ length p
    → (q : Bytes) × (server_block target p i ≡ ok (some q)) × (unpack_le32_at q (i + 8) ≡ ok target)
unfolding server_block
core_round target p i len fits et el big inside =
    let (current, ec) = unpack_le32_total p (i + 8) (omega arith) in
    let enough : (ltb len 12 || ltb (length p) (i + len)) ≡ false = ground arith in
    rw (et, el, enough, ec)
      (elim (Bool-cases (current == target)) [
        | inl same ↦ rw same (p, refl, ec ∙ ap ok ((==_iff current target).0 same))
        | inr other ↦
            rw (other, pack_le32_into_lem p (i + 8) target fits)
              (_, refl, read-overwrite p (i + 8) target (omega arith) fits)
      ])

-- Where the packet has a server core block (type 0x0C01, a length of 12 or more that lies in the
-- packet) and no earlier position reads as its type, clientRequestedProtocols of that block reads
-- the target afterwards, for a target of 32 bits.
pub patch_mcs_server_sets :
    (p : Bytes) (requested : Option ℕ) (i len : ℕ)
    → target_of requested < 2 ^ 32
    → ((j t : ℕ) → j < i → unpack_le16_at p j ≡ ok t → t ≢ ts_ud_sc_core)
    → unpack_le16_at p i ≡ ok ts_ud_sc_core
    → unpack_le16_at p (i + 2) ≡ ok len
    → 12 ≤ len
    → i + len ≤ length p
    → (q : Bytes) × (patch_mcs_server p requested ≡ ok q)
      × (unpack_le32_at q (i + 8) ≡ ok (target_of requested))
unfolding patch_mcs_server
patch_mcs_server_sets p requested i len fits first et el big inside =
    let target = target_of requested in
    let (q, hit, read) = core_round target p i len fits et el big inside in
    (
      q,
      scan_first (server_block target) p q i 0 (length p - 3) (λ j h. earlier j (omega arith))
          (ap (server_block target p) (zero_plus i) ∙ hit) (omega arith),
      read,
    )
  where
    zero_plus : (n : ℕ) → 0 + n ≡ n
    zero_plus n = omega arith

    earlier : (j : ℕ) → j < i → server_block (target_of requested) p j ≡ ok none
    earlier j h =
        let (t, e) = unpack_le16_total p j (omega arith) in
        not_core (target_of requested) p j e (first j t h e)
