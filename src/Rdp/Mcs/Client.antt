-- ===== src/Rdp/Mcs/Client.antt =====
-- The patch of the client's message.
use rdpproxy_v.Prelude.{
  ℕ, ◌+◌, ◌-◌, ◌≤◌, ◌≡◌, refl, ap, ◌∙◌, ◌⊎◌, inl, inr, true, false, ◌||◌, Option, none, some, [],
  ◌∷◌, length, arith, if◌then◌else◌, ltb, ◌==◌, not, ==_iff, Bool-cases,
}
use rdpproxy_v.Prelude.Text.{Bytes}
use rdpproxy_v.Errors.{ok, map_result}
use rdpproxy_v.Pack.{unpack_le16_at, unpack_le32_at}
use rdpproxy_v.Rdp.Mcs.{
  field_within, patch_at, field_position, skip_fields, field_sizes, patch_field, patch_cs_core,
  client_block, patch_mcs_client, ts_ud_cs_core,
}
use rdpproxy_v.Rdp.Mcs.Reads.{
  unpack_le16_total, unpack_le32_total, Yields, Yields-none, Yields-some, Yields-if, Yields-bind,
  scan_lem, overwrite,
}

-- The packet itself, or the packet with one field that held PROTOCOL_SSL set to PROTOCOL_HYBRID.
abbrev pub ClientOutcome : Bytes → Bytes → Type 0
ClientOutcome p q =
    (q ≡ p)
    ⊎ ((pos : ℕ) × (pos + 4 ≤ length p)
        × (unpack_le32_at p pos ≡ ok 1)
        × (q ≡ overwrite p pos (2 ∷ 0 ∷ 0 ∷ 0 ∷ [])))

position_bound :
    (len end_ pos : ℕ) (o : Option ℕ) (x : ℕ)
    → (o ≡ some x → x + 4 ≤ end_)
    → (if ltb len end_ then none else if ltb end_ pos then none else o) ≡ some x
    → x + 4 ≤ len
position_bound len end_ pos o x within h = elim (Bool-cases (ltb len end_)) [
  | inl beyond ↦ absurd (none_some (rw beyond at h))
  | inr inside ↦ elim (Bool-cases (ltb end_ pos)) [
    | inl short ↦ absurd (none_some (rw (inside, short) at h))
    | inr enough ↦
        let e : o ≡ some x = rw (inside, enough) at h in
        let w : x + 4 ≤ end_ = within e in ground arith
  ]
]
  where
    none_some : {y : ℕ} → none ≡ some y → ⊥
    none_some e = cc

module _ (p : Bytes) where
  Yields-patch_field :
      (pos : ℕ)
      → pos + 4 ≤ length p
      → Yields (ClientOutcome p) (map_result some (patch_field p pos))
  unfolding patch_field
  Yields-patch_field pos h =
      let (v, e) = unpack_le32_total p pos h in
      rw e (elim (==_cases v) [
        | inl one ↦ rw one (Yields-some _ (inr (pos, h, e ∙ ap ok (one_eq v one), refl)))
        | inr other ↦ rw other (Yields-some p (inl refl))
      ])
    where
      ==_cases : (v : ℕ) → ((v == 1) ≡ true) ⊎ ((v == 1) ≡ false)
      ==_cases v = Bool-cases (v == 1)

      one_eq : (v : ℕ) → (v == 1) ≡ true → v ≡ 1
      one_eq v h = (==_iff v 1).0 h

  field_within_bound :
      (end_ : ℕ) (o : Option ℕ) (pos : ℕ) → field_within end_ o ≡ some pos → pos + 4 ≤ end_
  unfolding field_within
  field_within_bound end_ none pos h = cc
  field_within_bound end_ (some x) pos h = ground arith

  field_position_bound :
      (off len pos : ℕ) → field_position p off len ≡ some pos → pos + 4 ≤ length p
  field_position_bound off len pos h =
      let end_ = off + (len - 4) in
      let found = skip_fields field_sizes (off + 128) end_ in
      position_bound (length p) end_ (off + 128) (field_within end_ found) pos
        (field_within_bound end_ found pos) (unfold field_position in h)

  Yields-patch_at :
      (o : Option ℕ)
      → ((pos : ℕ) → o ≡ some pos → pos + 4 ≤ length p)
      → Yields (ClientOutcome p) (patch_at p o)
  unfolding patch_at
  Yields-patch_at none h = Yields-none
  Yields-patch_at (some pos) h = Yields-patch_field pos (h pos refl)

  Yields-patch_cs_core : (off len : ℕ) → Yields (ClientOutcome p) (patch_cs_core p off len)
  unfolding patch_cs_core
  Yields-patch_cs_core off len =
      Yields-patch_at (field_position p off len) (field_position_bound off len)

  Yields-client_block : (i : ℕ) → i + 4 ≤ length p → Yields (ClientOutcome p) (client_block p i)
  unfolding client_block
  Yields-client_block i h =
      Yields-bind (unpack_le16_at p i) _ (unpack_le16_total p i (omega arith)) λ t _.
        Yields-if (not (t == ts_ud_cs_core)) _ _ (λ _. Yields-none)
          λ _.
            Yields-bind (unpack_le16_at p (i + 2)) _ (unpack_le16_total p (i + 2) (omega arith))
              λ len _.
                Yields-if (ltb len 132 || ltb (length p) (i + len)) _ _ (λ _. Yields-none)
                  λ _. Yields-patch_cs_core (i + 4) len

  -- The patch ends normally on every packet. Its answer is the packet itself, or the packet with
  -- exactly four bytes replaced, which read PROTOCOL_SSL and now read PROTOCOL_HYBRID.
  pub patch_mcs_client_lem : (q : Bytes) × (patch_mcs_client p ≡ ok q) × ClientOutcome p q
  unfolding patch_mcs_client
  patch_mcs_client_lem =
      scan_lem client_block p Yields-client_block (inl refl) 0 (length p - 3) (omega arith)
