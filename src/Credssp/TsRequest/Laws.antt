-- ===== src/Credssp/TsRequest/Laws.antt =====
-- A TSRequest is decoded as it was encoded.
use mathlib.Core.List.{append-nil}
use rdpproxy_v.Prelude.{
  ℕ, zero, suc, ◌+◌, ◌<◌, ◌≤◌, ◌≡◌, refl, sym, ap, ◌∙◌, Option, none, some, [], ◌∷◌, ◌++◌, length,
  drop, arith, drop-append, length-append,
}
use rdpproxy_v.Prelude.Text.{Bytes}
use rdpproxy_v.Errors.{Result, ok, err, map_result}
use rdpproxy_v.Credssp.Der.{IsAsn1Encode}
use rdpproxy_v.Credssp.Der.Laws.{encoded, asn1decode-asn1encode}
use rdpproxy_v.Credssp.TsRequest.{
  TsRequest, no_fields, content, octets_of, token_of, tokens_of, extract_octet_from_nego_data,
  octet_field, keep_or, read_field, read_fields, from_string, octet_string, version_blob, nego_blob,
  octet_blob, blobs, get_data,
}

abbrev pub size : Option Bytes → ℕ
size none = 0
size (some b) = length b

abbrev pub fields_size : TsRequest → ℕ
fields_size r = size r.nego_data + size r.auth_info + size r.pub_key_auth

module _ (asn1encode : Bytes → Bytes) (der : IsAsn1Encode asn1encode) where
  content_lem : (b : Bytes) → length b < 65536 → content (asn1encode b) ≡ b
  content_lem b h =
      ap content (sym (append-nil (asn1encode b)))
      ∙ ap (λ (d : Bytes × ℕ). d.0) (asn1decode-asn1encode asn1encode der b [] h)

  length-asn1encode : (b : Bytes) → length b < 65536 → length (asn1encode b) ≤ length b + 3
  length-asn1encode b h = let c = encoded asn1encode der b h in omega (arith, c.size, c.small)

  extract_lem :
      (b : Bytes)
      → length b < 65500
      → extract_octet_from_nego_data
          (0x30 ∷ asn1encode (0x30 ∷ asn1encode (0xA0 ∷ asn1encode (octet_string asn1encode b))))
        ≡ ok b
  unfolding extract_octet_from_nego_data tokens_of token_of octets_of
  extract_lem b h =
      let l0 = length-asn1encode b (omega arith) in
      let l1 = length-asn1encode (octet_string asn1encode b) (omega arith) in
      let l2 = length-asn1encode (0xA0 ∷ asn1encode (octet_string asn1encode b)) (omega arith) in
      rw
        (content_lem (0x30 ∷ asn1encode (0xA0 ∷ asn1encode (octet_string asn1encode b)))
          (omega arith))
        (rw (content_lem (0xA0 ∷ asn1encode (octet_string asn1encode b)) (omega arith)) (
          rw (content_lem (octet_string asn1encode b) (omega arith))
            (rw (content_lem b (omega arith)) refl)))

  octet_field_lem :
      (b : Bytes) → length b < 65536 → octet_field (octet_string asn1encode b) ≡ ok (some b)
  unfolding octet_field
  octet_field_lem b h = rw (content_lem b h) refl

  -- One round of the loop takes one blob off.
  read_step :
      (fuel tag : ℕ) (body more : Bytes) (r r' : TsRequest)
      → length body < 65536
      → read_field tag body r ≡ ok r'
      → read_fields (suc fuel) (tag ∷ (asn1encode body ++ more)) r ≡ read_fields fuel more r'
  unfolding read_fields
  read_step fuel tag body more r r' h e =
      ap (λ p. at p (read_field tag p.0 r)) (asn1decode-asn1encode asn1encode der body more h)
      ∙ ap (at (body, length (asn1encode body))) e
      ∙ ap (λ b. read_fields fuel b r') (drop-append (asn1encode body) more)
    where
      at : Bytes × ℕ → Result TsRequest → Option (Result TsRequest)
      at p (err x) = some (err x)
      at p (ok r') = read_fields fuel (drop p.1 (asn1encode body ++ more)) r'

  -- The loop over a blob, from enough fuel, goes on behind it with enough fuel.
  pub record Reads (fuel : ℕ) (b more : Bytes) (r r' : TsRequest) : Type 0 where
    pub left : ℕ
    pub enough : length more ≤ left
    pub goes_on : read_fields fuel b r ≡ read_fields left more r'

  blob-Reads :
      (fuel tag : ℕ) (body more : Bytes) (r r' : TsRequest)
      → length body < 65536
      → read_field tag body r ≡ ok r'
      → length (tag ∷ (asn1encode body ++ more)) ≤ fuel
      → Reads fuel (tag ∷ (asn1encode body ++ more)) more r r'
  blob-Reads zero tag body more r r' h e l = absurd (omega arith)
  blob-Reads (suc fuel) tag body more r r' h e l = record {
    left = fuel;
    enough = omega (arith, length-append (asn1encode body) more);
    goes_on = read_step fuel tag body more r r' h e;
  }

  nego-Reads :
      (fuel : ℕ) (o : Option Bytes) (more : Bytes) (r : TsRequest)
      → size o < 65000
      → length (nego_blob asn1encode o ++ more) ≤ fuel
      → Reads fuel
          (nego_blob asn1encode o ++ more)
          more
          r
          (record r { nego_data = keep_or r.nego_data o })
  unfolding nego_blob read_field
  nego-Reads fuel none more r h l = record { left = fuel; enough = l; goes_on = refl }
  nego-Reads fuel (some b) more r h l =
      let l0 = length-asn1encode b (omega arith) in
      let l1 = length-asn1encode (octet_string asn1encode b) (omega arith) in
      let l2 = length-asn1encode (0xA0 ∷ asn1encode (octet_string asn1encode b)) (omega arith) in
      let l3 =
        length-asn1encode (0x30 ∷ asn1encode (0xA0 ∷ asn1encode (octet_string asn1encode b)))
          (omega arith) in
      blob-Reads fuel 0xA1 _ more r _ (omega arith)
        (ap (map_result (λ b. record r { nego_data = some b })) (extract_lem b (omega arith))) l

  auth-Reads :
      (fuel : ℕ) (o : Option Bytes) (more : Bytes) (r : TsRequest)
      → size o < 65000
      → length (octet_blob asn1encode 0xA2 o ++ more) ≤ fuel
      → Reads fuel
          (octet_blob asn1encode 0xA2 o ++ more)
          more
          r
          (record r { auth_info = keep_or r.auth_info o })
  unfolding octet_blob read_field
  auth-Reads fuel none more r h l = record { left = fuel; enough = l; goes_on = refl }
  auth-Reads fuel (some b) more r h l =
      let l0 = length-asn1encode b (omega arith) in
      blob-Reads fuel 0xA2 _ more r _ (omega arith)
        (ap (map_result (λ o. record r { auth_info = keep_or r.auth_info o }))
          (octet_field_lem b (omega arith)))
        l

  pub_key-Reads :
      (fuel : ℕ) (o : Option Bytes) (more : Bytes) (r : TsRequest)
      → size o < 65000
      → length (octet_blob asn1encode 0xA3 o ++ more) ≤ fuel
      → Reads fuel
          (octet_blob asn1encode 0xA3 o ++ more)
          more
          r
          (record r { pub_key_auth = keep_or r.pub_key_auth o })
  unfolding octet_blob read_field
  pub_key-Reads fuel none more r h l = record { left = fuel; enough = l; goes_on = refl }
  pub_key-Reads fuel (some b) more r h l =
      let l0 = length-asn1encode b (omega arith) in
      blob-Reads fuel 0xA3 _ more r _ (omega arith)
        (ap (map_result (λ o. record r { pub_key_auth = keep_or r.pub_key_auth o }))
          (octet_field_lem b (omega arith)))
        l

  version-Reads :
      (fuel : ℕ) (more : Bytes) (r : TsRequest)
      → length (version_blob asn1encode ++ more) ≤ fuel
      → Reads fuel (version_blob asn1encode ++ more) more r r
  unfolding version_blob read_field
  version-Reads fuel more r l =
      let l0 = length-asn1encode (2 ∷ []) (omega arith) in
      blob-Reads fuel 0xA0 _ more r r (omega arith) refl l

  decoded : TsRequest → TsRequest
  decoded r = record {
    nego_data = keep_or none r.nego_data;
    auth_info = keep_or none r.auth_info;
    pub_key_auth = keep_or none r.pub_key_auth;
  }

  keep_none : (o : Option Bytes) → keep_or none o ≡ o
  keep_none none = refl
  keep_none (some b) = refl

  decoded_lem : (r : TsRequest) → decoded r ≡ r
  unfolding decoded
  decoded_lem r = rw (keep_none r.nego_data, keep_none r.auth_info, keep_none r.pub_key_auth) refl

  at_end : (fuel : ℕ) (r : TsRequest) → read_fields fuel [] r ≡ some (ok r)
  unfolding read_fields
  at_end fuel r = refl

  read_fields-blobs :
      (r : TsRequest)
      → fields_size r < 65000
      → read_fields (length (blobs asn1encode r)) (blobs asn1encode r) no_fields ≡ some (ok r)
  unfolding blobs decoded
  read_fields-blobs r h =
      let m3 = octet_blob asn1encode 0xA3 r.pub_key_auth ++ [] in
      let m2 = octet_blob asn1encode 0xA2 r.auth_info ++ m3 in
      let m1 = nego_blob asn1encode r.nego_data ++ m2 in
      let r1 = record no_fields { nego_data = keep_or none r.nego_data } in
      let r2 = record r1 { auth_info = keep_or none r.auth_info } in
      let a = version-Reads (length (blobs asn1encode r)) m1 no_fields (omega arith) in
      let b = nego-Reads a.left r.nego_data m2 no_fields (omega arith) a.enough in
      let c = auth-Reads b.left r.auth_info m3 r1 (omega arith) b.enough in
      let d = pub_key-Reads c.left r.pub_key_auth [] r2 (omega arith) c.enough in
      a.goes_on
      ∙ (b.goes_on
          ∙ (c.goes_on
              ∙ (d.goes_on ∙ (at_end d.left (decoded r) ∙ ap (λ r. some (ok r)) (decoded_lem r)))))

  length-nego_blob :
      (o : Option Bytes) → size o < 65000 → length (nego_blob asn1encode o) ≤ size o + 20
  unfolding nego_blob
  length-nego_blob none h = omega arith
  length-nego_blob (some b) h =
      let l0 = length-asn1encode b (omega arith) in
      let l1 = length-asn1encode (octet_string asn1encode b) (omega arith) in
      let l2 = length-asn1encode (0xA0 ∷ asn1encode (octet_string asn1encode b)) (omega arith) in
      let l3 =
        length-asn1encode (0x30 ∷ asn1encode (0xA0 ∷ asn1encode (octet_string asn1encode b)))
          (omega arith) in
      let l4 =
        length-asn1encode
          (0x30 ∷ asn1encode (0x30 ∷ asn1encode (0xA0 ∷ asn1encode (octet_string asn1encode b))))
          (omega arith) in
      omega arith

  length-octet_blob :
      (tag : ℕ) (o : Option Bytes)
      → size o < 65000
      → length (octet_blob asn1encode tag o) ≤ size o + 8
  unfolding octet_blob
  length-octet_blob tag none h = omega arith
  length-octet_blob tag (some b) h =
      let l0 = length-asn1encode b (omega arith) in
      let l1 = length-asn1encode (octet_string asn1encode b) (omega arith) in omega arith

  length-version_blob : length (version_blob asn1encode) ≤ 9
  unfolding version_blob
  length-version_blob =
      let l0 = length-asn1encode (2 ∷ []) (omega arith) in
      let l1 = length-asn1encode (0x02 ∷ asn1encode (2 ∷ [])) (omega arith) in omega arith

  pub length-blobs :
      (r : TsRequest) → fields_size r < 65000 → length (blobs asn1encode r) ≤ fields_size r + 45
  unfolding blobs
  length-blobs r h =
      let v = version_blob asn1encode in
      let n = nego_blob asn1encode r.nego_data in
      let a = octet_blob asn1encode 0xA2 r.auth_info in
      let p = octet_blob asn1encode 0xA3 r.pub_key_auth in
      let lv = length-version_blob in
      let ln = length-nego_blob r.nego_data (omega arith) in
      let la = length-octet_blob 0xA2 r.auth_info (omega arith) in
      let lp = length-octet_blob 0xA3 r.pub_key_auth (omega arith) in
      let e1 = length-append v (n ++ (a ++ (p ++ []))) in
      let e2 = length-append n (a ++ (p ++ [])) in
      let e3 = length-append a (p ++ []) in let e4 = length-append p [] in omega arith

  -- What `get_data` makes of a request with less than 65000 bytes in its fields, `from_string`
  -- reads back as the same request, whatever comes behind it.
  pub from_string-get_data :
      (r : TsRequest) (rest : Bytes)
      → fields_size r < 65000
      → from_string (get_data asn1encode r ++ rest) ≡ some (ok r)
  unfolding from_string get_data
  from_string-get_data r rest h =
      let l = length-blobs r h in
      ap (λ (p : Bytes × ℕ). read_fields (length p.0) p.0 no_fields)
        (asn1decode-asn1encode asn1encode der (blobs asn1encode r) rest (omega arith))
      ∙ read_fields-blobs r h
