-- ===== src/Credssp/Der/Laws.antt =====
-- What is encoded is decoded, whatever follows it.
use rdpproxy_v.Prelude.{
  ℕ, ◌+◌, ◌/◌, ◌%◌, ◌<◌, ◌≤◌, ◌≡◌, refl, ap, ◌∙◌, inl, inr, ◌⊎◌, true, false, Bool-cases, [], ◌∷◌,
  ◌++◌, length, ltb, ltb→lt, arith, take-append, drop-append,
}
use mathlib.Core.List.{append_assoc}
use rdpproxy_v.Prelude.Text.{Bytes}
use rdpproxy_v.Credssp.Der.{int_of_bytes, is_long, low_bits, asn1decode, IsAsn1Encode}

-- The three forms that an encoding takes: the field of the length, and what it reads as.
pub record Encoded (d e : Bytes) : Type 0 where
  pub first : ℕ
  pub more : Bytes
  pub form : e ≡ first ∷ (more ++ d)
  pub size : length e ≡ 1 + length more + length d
  pub small : length more ≤ 2
  pub reads :
      ((is_long first ≡ true) × (low_bits first ≡ length more) × (int_of_bytes more ≡ length d))
      ⊎ ((is_long first ≡ false) × (more ≡ []) × (first ≡ length d))

decode_lem : (d e rest : Bytes) → Encoded d e → asn1decode (e ++ rest) ≡ (d, length e)
unfolding asn1decode
decode_lem d e rest c =
    ap (λ x. asn1decode (x ++ rest)) c.form
    ∙ (ap (λ x. asn1decode (c.first ∷ x)) (append_assoc c.more d rest) ∙ elim c.reads [
      | inl (l, n, v) ↦
          rw (l, n)
            (rw (take-append c.more (d ++ rest), drop-append c.more (d ++ rest))
              (rw v (rw (take-append d rest) (ap (λ m. (d, m)) (omega (arith, c.size))))))
      | inr (l, n, v) ↦
          rw (l, n)
            (rw v (rw (take-append d rest) (ap (λ m. (d, m)) (omega (arith, c.size, ap length n)))))
    ])

module _ (asn1encode : Bytes → Bytes) (der : IsAsn1Encode asn1encode) where
  pub encoded : (d : Bytes) → length d < 65536 → Encoded d (asn1encode d)
  encoded d h = elim (Bool-cases (ltb (length d) 128)) [
    | inl s ↦ record {
      first = length d;
      more = [];
      form = der.short d (ltb→lt _ _ s);
      size = ap length (der.short d (ltb→lt _ _ s)) ∙ omega arith;
      small = omega arith;
      reads = inr (ground arith, refl, refl);
    }
    | inr l ↦ elim (Bool-cases (ltb (length d) 256)) [
      | inl s ↦ record {
        first = 0x81;
        more = length d ∷ [];
        form = der.one_byte d (ground arith) (ltb→lt _ _ s);
        size = ap length (der.one_byte d (ground arith) (ltb→lt _ _ s)) ∙ omega arith;
        small = omega arith;
        reads = inl (refl, refl, omega arith);
      }
      | inr m ↦ record {
        first = 0x82;
        more = length d / 256 ∷ length d % 256 ∷ [];
        form = der.two_bytes d (ground arith) h;
        size = ap length (der.two_bytes d (ground arith) h) ∙ omega arith;
        small = omega arith;
        reads = inl (refl, refl, omega arith);
      }
    ]
  ]

  -- The content and the size of the encoding come back, whatever follows.
  pub asn1decode-asn1encode :
      (d rest : Bytes)
      → length d < 65536
      → asn1decode (asn1encode d ++ rest) ≡ (d, length (asn1encode d))
  asn1decode-asn1encode d rest h = decode_lem d (asn1encode d) rest (encoded d h)
