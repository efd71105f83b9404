-- ===== src/Credssp/Der/PubKey.antt =====
-- _extract_raw_pubkey on the SubjectPublicKeyInfo of a certificate.
use mathlib.Core.List.{append_assoc, append-nil}
use rdpproxy_v.Prelude.{
  ℕ, ◌+◌, ◌<◌, ◌≡◌, refl, sym, ap, ◌∙◌, inl, inr, [], ◌∷◌, ◌++◌, length, take, drop, arith,
  take-append, drop-append, length-append,
}
use rdpproxy_v.Prelude.Text.{Bytes}
use rdpproxy_v.Errors.{Result, ok, err, index_error, ◌>>=◌}
use rdpproxy_v.Credssp.Der.{
  int_of_bytes, low_bits, IsAsn1Encode, byte_at, expect_tag, skip_length, skip_algorithm,
  extract_raw_pubkey,
}
use rdpproxy_v.Credssp.Der.Laws.{Encoded, encoded}

byte_at-append :
    (s p rest : Bytes) (b n : ℕ) → n ≡ length p → s ≡ p ++ (b ∷ rest) → byte_at s n ≡ ok b
byte_at-append s p rest b n h e =
    ap (λ s. byte_at s n) e
    ∙ (ap (byte_at (p ++ (b ∷ rest))) h ∙ unfold byte_at in ap head (drop-append p (b ∷ rest)))
  where
    head : Bytes → Result ℕ
    head [] = err index_error
    head (b ∷ _) = ok b

expect_tag-append :
    (s p rest : Bytes) (b n : ℕ) → n ≡ length p → s ≡ p ++ (b ∷ rest) → expect_tag b s n ≡ ok tt
unfolding expect_tag
expect_tag-append s p rest b n h e = rw (byte_at-append s p rest b n h e) (ground arith)

-- Behind the length of an encoding.
skip_length-append :
    (s p d e rest : Bytes) (n : ℕ) (c : Encoded d e)
    → n ≡ length p
    → s ≡ p ++ (e ++ rest)
    → skip_length s n ≡ ok (n + 1 + length c.more)
unfolding skip_length
skip_length-append s p d e rest n c h q =
    rw
      (byte_at-append s p (c.more ++ (d ++ rest)) c.first n h (
        q
        ∙ (ap (λ e. p ++ (e ++ rest)) c.form
            ∙ ap (λ m. p ++ (c.first ∷ m)) (append_assoc c.more d rest))))
      (elim c.reads [
        | inl (l, m, v) ↦ rw (l, m) refl
        | inr (l, m, v) ↦ rw l (ap (λ k. ok k) (omega (arith, ap length m)))
      ])

-- Behind a whole encoding whose tag stands at the offset.
skip_algorithm-append :
    (s p d e rest : Bytes) (t n : ℕ) (c : Encoded d e)
    → n ≡ length p
    → s ≡ p ++ (t ∷ (e ++ rest))
    → skip_algorithm s n ≡ ok (n + 1 + length e)
unfolding skip_algorithm
skip_algorithm-append s p d e rest t n c h q =
    let shape : s ≡ (p ++ (t ∷ c.first ∷ [])) ++ (c.more ++ (d ++ rest)) =
      q
      ∙ (ap (λ e. p ++ (t ∷ (e ++ rest))) c.form
          ∙ (ap (λ m. p ++ (t ∷ c.first ∷ m)) (append_assoc c.more d rest)
              ∙ sym (append_assoc p (t ∷ c.first ∷ []) (c.more ++ (d ++ rest))))) in
    let at_first : s ≡ (p ++ (t ∷ [])) ++ (c.first ∷ (c.more ++ (d ++ rest))) =
      shape
      ∙ (append_assoc p (t ∷ c.first ∷ []) (c.more ++ (d ++ rest))
          ∙ sym (append_assoc p (t ∷ []) (c.first ∷ (c.more ++ (d ++ rest))))) in
    let l1 = length-append p (t ∷ []) in
    let l2 = length-append p (t ∷ c.first ∷ []) in
    rw
      (byte_at-append s (p ++ (t ∷ [])) (c.more ++ (d ++ rest)) c.first (n + 1) (omega arith)
        at_first)
      (elim c.reads [
        | inl (l, m, v) ↦ rw l (
            ap (λ k. ok k)
              (ap (λ x. n + (2 + low_bits c.first + int_of_bytes (take (low_bits c.first) x)))
                  (ap (drop (n + 2)) shape
                    ∙ (ap (λ k. drop k ((p ++ (t ∷ c.first ∷ [])) ++ (c.more ++ (d ++ rest))))
                          (omega arith)
                        ∙ drop-append (p ++ (t ∷ c.first ∷ [])) (c.more ++ (d ++ rest))))
                ∙ rw m (rw (take-append c.more (d ++ rest)) (rw v (omega (arith, c.size))))))
        | inr (l, m, v) ↦ rw l (ap (λ k. ok k) (omega (arith, c.size, ap length m)))
      ])

bind_ok : {A B : Type 0} (m : Result A) (a : A) (f : A → Result B) → m ≡ ok a → (m >>= f) ≡ f a
bind_ok m a f e = ap (λ m. m >>= f) e

extract_lem :
    (algorithm a : Bytes) (unused : ℕ) (key k e : Bytes)
    → Encoded algorithm a
    → Encoded (unused ∷ key) k
    → Encoded ((0x30 ∷ a) ++ (0x03 ∷ k)) e
    → extract_raw_pubkey (0x30 ∷ e) ≡ ok key
unfolding extract_raw_pubkey
extract_lem algorithm a unused key k e ca ck c =
    let s : Bytes = 0x30 ∷ e in
    let p1 : Bytes = 0x30 ∷ c.first ∷ c.more in
    let s1 : s ≡ p1 ++ (0x30 ∷ (a ++ (0x03 ∷ k))) = ap (λ e. 0x30 ∷ e) c.form in
    let p2 : Bytes = p1 ++ (0x30 ∷ a) in
    let s2 : s ≡ p2 ++ (0x03 ∷ k) = s1 ∙ sym (append_assoc p1 (0x30 ∷ a) (0x03 ∷ k)) in
    let p3 : Bytes = p2 ++ (0x03 ∷ []) in
    let s3 : s ≡ p3 ++ k = s2 ∙ sym (append_assoc p2 (0x03 ∷ []) k) in
    let p4 : Bytes = p3 ++ (ck.first ∷ (ck.more ++ (unused ∷ []))) in
    let s4 : s ≡ p4 ++ key =
      s3
      ∙ (ap (λ k. p3 ++ k)
            (ck.form ∙ ap (λ m. ck.first ∷ m) (sym (append_assoc ck.more (unused ∷ []) key)))
          ∙ sym (append_assoc p3 (ck.first ∷ (ck.more ++ (unused ∷ []))) key)) in
    let l2 = length-append p1 (0x30 ∷ a) in
    let l3 = length-append p2 (0x03 ∷ []) in
    let l4 = length-append p3 (ck.first ∷ (ck.more ++ (unused ∷ []))) in
    let l5 = length-append ck.more (unused ∷ []) in
    let n1 = 2 + length c.more in
    let n2 = n1 + 1 + length a in
    let n3 = n2 + 1 + 1 + length ck.more in
    bind_ok _ n1 _
      (skip_length-append s (0x30 ∷ []) _ e [] 1 c refl (ap (λ e. 0x30 ∷ e) (sym (append-nil e))))
    ∙ (bind_ok _ tt _ (expect_tag-append s p1 _ 0x30 n1 (omega arith) s1)
        ∙ (bind_ok _ n2 _ (skip_algorithm-append s p1 algorithm a _ 0x30 n1 ca (omega arith) s1)
            ∙ (bind_ok _ tt _ (expect_tag-append s p2 _ 0x03 n2 (omega arith) s2)
                ∙ (bind_ok _ n3 _ (
                      skip_length-append s p3 _ k [] (n2 + 1) ck (omega arith)
                        (s3 ∙ ap (λ k. p3 ++ k) (sym (append-nil k))))
                    ∙ ap (λ x. ok x)
                        (ap (λ n. drop n s) {y = length p4} (omega arith)
                          ∙ (ap (drop (length p4)) s4 ∙ drop-append p4 key))))))

module _ (asn1encode : Bytes → Bytes) where
  -- SubjectPublicKeyInfo, with the contents of the AlgorithmIdentifier and of the BIT STRING.
  unfoldable pub spki : (algorithm : Bytes) (unused : ℕ) (key : Bytes) → Bytes
  spki algorithm unused key =
      0x30 ∷ asn1encode ((0x30 ∷ asn1encode algorithm) ++ (0x03 ∷ asn1encode (unused ∷ key)))

module _ (asn1encode : Bytes → Bytes) (der : IsAsn1Encode asn1encode) where
  -- What is taken of a SubjectPublicKeyInfo whose algorithm and key have less than 65000 bytes is
  -- the bytes of the key, whatever the forms of the three lengths.
  pub extract_raw_pubkey-spki :
      (algorithm : Bytes) (unused : ℕ) (key : Bytes)
      → length algorithm + length key < 65000
      → extract_raw_pubkey (spki asn1encode algorithm unused key) ≡ ok key
  unfolding spki
  extract_raw_pubkey-spki algorithm unused key h =
      let a = asn1encode algorithm in
      let k = asn1encode (unused ∷ key) in
      let ca = encoded asn1encode der algorithm (omega arith) in
      let ck = encoded asn1encode der (unused ∷ key) (omega arith) in
      extract_lem algorithm a unused key k _ ca ck (
        encoded asn1encode der _
          (omega (arith, length-append a (0x03 ∷ k), ca.size, ck.size, ca.small, ck.small)))
