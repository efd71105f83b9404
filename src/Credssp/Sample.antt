-- ===== src/Credssp/Sample.antt =====
-- A DER encoder, an NTLM that hides nothing, and a backend: runs and tests stand on them.
use rdpproxy_v.Prelude.{
  ◌/◌, ◌%◌, refl, none, some, [], ◌∷◌, ◌++◌, length, ltb, if◌then◌else◌, arith, le→ltb, lt→ltb,
}
use rdpproxy_v.Prelude.Text.{Bytes, codes}
use rdpproxy_v.Errors.{ok, err, value_error}
use rdpproxy_v.Credssp.Der.{IsAsn1Encode}
use rdpproxy_v.Credssp.Der.PubKey.{spki}
use rdpproxy_v.Credssp.TsRequest.{TsRequest, no_fields, get_data}
use rdpproxy_v.Credssp.Handshake.{Ntlm, Backend}

abbrev pub encode : Bytes → Bytes
encode d =
    if ltb (length d) 128
    then length d ∷ d
    else if ltb (length d) 256
    then 0x81 ∷ length d ∷ d
    else 0x82 ∷ length d / 256 ∷ length d % 256 ∷ d

pub encode-IsAsn1Encode : IsAsn1Encode encode
encode-IsAsn1Encode = record {
  short = λ d h. rw (lt→ltb (length d) 128 h) refl;
  one_byte = λ d l h. rw (le→ltb (length d) 128 l, lt→ltb (length d) 256 h) refl;
  two_bytes = λ d l h. rw (le→ltb (length d) 128 (omega arith), le→ltb (length d) 256 l) refl;
}

abbrev pub challenge : TsRequest
challenge = record no_fields { nego_data = some (codes "NTLMSSP" ++ (0 ∷ 2 ∷ [])) }

abbrev pub ntlm : Ntlm
ntlm = record {
  Key = Bytes;
  type1 = codes "NTLMSSP" ++ (0 ∷ 1 ∷ []);
  type3 = λ c user password domain. ok (domain ++ user, password);
  nego_token_init = λ b. 0x60 ∷ b;
  nego_token_resp = λ b. 0xA1 ∷ b;
  response_token = λ b. err value_error;
  encrypt = λ key before b. length before ∷ b;
  asn1encode = encode;
  upper = λ t. t;
  encode_utf16 = λ t. t;
}

abbrev pub key_der : Bytes
key_der = spki encode (0x06 ∷ 1 ∷ 42 ∷ []) 0 (7 ∷ 8 ∷ 9 ∷ [])

abbrev pub backend : Backend
backend = record {
  opened = ok ((3 ∷ 0 ∷ 0 ∷ 6 ∷ 14 ∷ 208 ∷ []) ++ []);
  secured = ok (get_data encode challenge ++ (3 ∷ 0 ∷ []));
  certificate_key = ok key_der;
  drain = λ n. none;
}
