-- ===== src/Credssp/Records.antt =====
-- _read_credssp_record: one record off the backend's stream.
use rdpproxy_v.Prelude.{
  ℕ, ◌<◌, ◌≤◌, ◌≡◌, refl, sym, ap, ◌∙◌, [], ◌∷◌, ◌++◌, length, take, drop, ltb, ◌==◌, if◌then◌else◌,
  inl, inr, arith, le→ltb,
}
use rdpproxy_v.Prelude.Text.{Bytes}
use rdpproxy_v.Errors.{Result, ok, err, value_error, index_error, struct_error}
use rdpproxy_v.Stream.{Read, pure, raise, lift, readexactly, ◌>>=◌}
use rdpproxy_v.Stream.Laws.{readexactly-append}
use rdpproxy_v.Pack.{unpack_be16}
use rdpproxy_v.Rdp.Tpkt.{tpkt_version, read_payload}
use rdpproxy_v.Credssp.Der.{int_of_bytes, is_long, low_bits, IsAsn1Encode}
use rdpproxy_v.Credssp.Der.Laws.{Encoded, encoded}
use mathlib.Core.List.{append_assoc}
use rdpproxy_v.Credssp.TsRequest.{TsRequest, get_data, blobs}
use rdpproxy_v.Credssp.TsRequest.Laws.{fields_size, length-blobs}

abbrev pub max_credssp_record_len : ℕ
max_credssp_record_len = 65536

-- The content, behind the header that has been read.
unfoldable pub read_content : Bytes → ℕ → Read Bytes
unfolding readexactly
read_content header plen =
    if ltb max_credssp_record_len plen
    then raise value_error
    else (do payload ← readexactly plen; pure (header ++ payload))

-- The DER branch, from the length's first byte.
unfoldable pub read_der : ℕ → Bytes → Read Bytes
unfolding read_content readexactly
read_der first [] = raise index_error
read_der first (len_b ∷ _) =
    if is_long len_b
    then (do
      len_ext ← readexactly (low_bits len_b)
      read_content (first ∷ len_b ∷ len_ext) (int_of_bytes len_ext))
    else read_content (first ∷ len_b ∷ []) len_b

-- The TPKT branch unpacks the last two of four bytes, of which it has read three.
unfoldable pub read_framed : Read Bytes
unfolding readexactly read_payload unpack_be16
read_framed = (do
  rest ← readexactly 3
  total_len ← lift (unpack_be16 (take 2 (drop 2 rest)))
  read_payload total_len)

unfoldable pub after_first : Bytes → Read Bytes
unfolding read_framed read_der readexactly
after_first [] = raise index_error
after_first (first ∷ _) =
    if first == tpkt_version
    then read_framed
    else if first == 0x30
    then (do len_b ← readexactly 1; read_der first len_b)
    else raise value_error

unfoldable pub read_credssp_record : Read Bytes
unfolding after_first readexactly
read_credssp_record = (do first ← readexactly 1; after_first first)

-- A frame is never read: whatever the first four bytes of the stream are, if the first is that of
-- a TPKT header then the read fails with struct.error and leaves what is behind the header.
pub read_credssp_record_framed :
    (a b c : ℕ) (rest : Bytes)
    → read_credssp_record (3 ∷ a ∷ b ∷ c ∷ rest) ≡ (err struct_error, rest)
unfolding read_credssp_record
read_credssp_record_framed a b c rest =
    rw (readexactly-append (3 ∷ []) (a ∷ b ∷ c ∷ rest) 1 refl)
      (unfold read_framed in rw (readexactly-append (a ∷ b ∷ c ∷ []) rest 3 refl) refl)

read_content_lem :
    (header payload rest : Bytes)
    → length payload ≤ 65536
    → read_content header (length payload) (payload ++ rest) ≡ (ok (header ++ payload), rest)
unfolding read_content
read_content_lem header payload rest h =
    rw (le→ltb max_credssp_record_len (length payload) h)
      (rw (readexactly-append payload rest (length payload) refl) refl)

abbrev read_as : Bytes → Bytes → Result Bytes × Bytes
read_as e rest = (ok e, rest)

-- Behind the tag, whatever the form of the length.
read_der_lem :
    (first : ℕ) (d e rest : Bytes) (c : Encoded d e)
    → length d ≤ 65536
    → read_der first (c.first ∷ []) (c.more ++ (d ++ rest)) ≡ (ok (first ∷ e), rest)
unfolding read_der
read_der_lem first d e rest c h = elim c.reads [
  | inl (l, n, v) ↦ rw l (
      rw (readexactly-append c.more (d ++ rest) (low_bits c.first) n)
        (rw v (read_content_lem (first ∷ c.first ∷ c.more) d rest h ∙ whole)))
  | inr (l, n, v) ↦ rw l (
      rw n (
        ap (λ k. read_content (first ∷ c.first ∷ []) k (d ++ rest)) v
        ∙ (read_content_lem (first ∷ c.first ∷ []) d rest h
            ∙ (ap (λ m. read_as (first ∷ c.first ∷ (m ++ d)) rest) (sym n) ∙ whole))))
]
  where
    whole : read_as (first ∷ c.first ∷ (c.more ++ d)) rest ≡ read_as (first ∷ e) rest
    whole = ap (λ e. read_as (first ∷ e) rest) (sym c.form)

read_record_lem :
    (d e rest : Bytes)
    → Encoded d e
    → length d ≤ 65536
    → read_credssp_record (0x30 ∷ (e ++ rest)) ≡ (ok (0x30 ∷ e), rest)
unfolding read_credssp_record after_first
read_record_lem d e rest c h = rw (readexactly-append (0x30 ∷ []) (e ++ rest) 1 refl) (
    ap (λ e. (readexactly 1 >>= read_der 0x30) (e ++ rest)) c.form
    ∙ (ap (λ s. (readexactly 1 >>= read_der 0x30) (c.first ∷ s)) (append_assoc c.more d rest)
        ∙ rw (readexactly-append (c.first ∷ []) (c.more ++ (d ++ rest)) 1 refl)
            (read_der_lem 0x30 d e rest c h)))

module _ (asn1encode : Bytes → Bytes) (der : IsAsn1Encode asn1encode) where
  -- A record that get_data made, of less than 65000 bytes in its fields, is read as a whole and
  -- alone: what comes behind it stays on the stream.
  pub read_credssp_record-get_data :
      (r : TsRequest) (rest : Bytes)
      → fields_size r < 65000
      → read_credssp_record (get_data asn1encode r ++ rest) ≡ (ok (get_data asn1encode r), rest)
  read_credssp_record-get_data r rest h =
      let l = length-blobs asn1encode der r h in
      unfold get_data in
      read_record_lem (blobs asn1encode r) (asn1encode (blobs asn1encode r)) rest
        (encoded asn1encode der (blobs asn1encode r) (omega arith)) (omega arith)
