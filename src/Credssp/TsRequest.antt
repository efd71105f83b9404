-- ===== src/Credssp/TsRequest.antt =====
-- The TSRequest of credssp.py, its encoder and its decoder, and the structures that it carries.
pub mod Laws
pub mod Ends
use rdpproxy_v.Prelude.{
  ℕ, zero, suc, ◌+◌, Bool, Option, none, some, List, [], ◌∷◌, ◌++◌, length, drop, ◌==◌,
  if◌then◌else◌,
}
use rdpproxy_v.Prelude.Text.{Bytes}
use rdpproxy_v.Errors.{Result, ok, err, value_error, index_error, key_error, ◌>>=◌, map_result}
use rdpproxy_v.Credssp.Der.{asn1decode}

-- The dict `fields`.
pub record TsRequest : Type 0 where
  pub nego_data : Option Bytes
  pub auth_info : Option Bytes
  pub pub_key_auth : Option Bytes

abbrev pub no_fields : TsRequest
no_fields = record { nego_data = none; auth_info = none; pub_key_auth = none }

-- The content behind a tag.
abbrev pub content : Bytes → Bytes
content b = (asn1decode b).0

-- `x or y`
abbrev pub or_bytes : Bytes → Bytes → Bytes
or_bytes [] y = y
or_bytes (b ∷ x) y = b ∷ x

-- `_extract_octet_from_nego_data`, from the inside out.
unfoldable pub octets_of : Bytes → Bytes
unfolding asn1decode
octets_of [] = []
octets_of (t ∷ rest) = if t == 0x04 then content rest else t ∷ rest

unfoldable pub token_of : Bytes → Bytes → Bytes
unfolding octets_of
token_of inner [] = inner
token_of inner (t ∷ rest) = if t == 0xA0 then octets_of (content rest) else t ∷ rest

unfoldable pub tokens_of : Bytes → Bytes → Bytes
unfolding token_of
tokens_of raw [] = raw
tokens_of raw (t ∷ rest) = if t == 0x30 then token_of (t ∷ rest) (content rest) else t ∷ rest

unfoldable pub extract_octet_from_nego_data : Bytes → Result Bytes
unfolding tokens_of
extract_octet_from_nego_data [] = err index_error
extract_octet_from_nego_data (t ∷ rest) =
    ok (if t == 0x30 then tokens_of (t ∷ rest) (content rest) else t ∷ rest)

-- The payload of an OCTET STRING; with another tag the field is left as it is.
unfoldable pub octet_field : Bytes → Result (Option Bytes)
unfolding asn1decode
octet_field [] = err index_error
octet_field (t ∷ rest) = ok (if t == 0x04 then some (content rest) else none)

abbrev pub keep_or : Option Bytes → Option Bytes → Option Bytes
keep_or old none = old
keep_or old (some b) = some b

-- What the loop does with one field. A field with another tag is passed over.
unfoldable pub read_field : ℕ → Bytes → TsRequest → Result TsRequest
unfolding extract_octet_from_nego_data octet_field
read_field tag body r =
    if tag == 0xA0
    then ok r
    else if tag == 0xA1
    then map_result (λ b. record r { nego_data = some b }) (extract_octet_from_nego_data body)
    else if tag == 0xA2
    then map_result (λ o. record r { auth_info = keep_or r.auth_info o }) (octet_field body)
    else if tag == 0xA3
    then map_result (λ o. record r { pub_key_auth = keep_or r.pub_key_auth o }) (octet_field body)
    else ok r

-- `while data`, with fuel; `none` is a loop that has not ended.
unfoldable pub read_fields : ℕ → Bytes → TsRequest → Option (Result TsRequest)
unfolding asn1decode read_field
read_fields fuel [] r = some (ok r)
read_fields zero (tag ∷ b) r = none
read_fields (suc fuel) (tag ∷ b) r = elim (read_field tag (asn1decode b).0 r) [
  | err e ↦ some (err e)
  | ok r' ↦ read_fields fuel (drop (asn1decode b).1 b) r'
]

-- The fuel is the number of the bytes: each round takes its tag off.
unfoldable pub from_string : Bytes → Option (Result TsRequest)
unfolding read_fields
from_string [] = some (err index_error)
from_string (t ∷ rest) =
    if t == 0x30
    then read_fields (length (content rest)) (content rest) no_fields
    else some (err value_error)

module _ (asn1encode : Bytes → Bytes) where
  abbrev pub octet_string : Bytes → Bytes
  octet_string b = 0x04 ∷ asn1encode b

  unfoldable pub version_blob : Bytes
  version_blob = 0xA0 ∷ asn1encode (0x02 ∷ asn1encode (2 ∷ []))

  unfoldable pub nego_blob : Option Bytes → Bytes
  nego_blob none = []
  nego_blob (some b) =
      0xA1 ∷ asn1encode (0x30 ∷ asn1encode (0x30 ∷ asn1encode (0xA0 ∷ asn1encode (octet_string b))))

  -- The blobs of authInfo and pubKeyAuth, by their tag.
  unfoldable pub octet_blob : ℕ → Option Bytes → Bytes
  octet_blob tag none = []
  octet_blob tag (some b) = tag ∷ asn1encode (octet_string b)

  unfoldable pub blobs : TsRequest → Bytes
  unfolding version_blob nego_blob octet_blob
  blobs r =
      version_blob
      ++ (nego_blob r.nego_data
          ++ (octet_blob 0xA2 r.auth_info ++ (octet_blob 0xA3 r.pub_key_auth ++ [])))

  unfoldable pub get_data : TsRequest → Bytes
  unfolding blobs
  get_data r = 0x30 ∷ asn1encode (blobs r)

  -- TSPasswordCreds.get_data
  unfoldable pub password_creds : (domain_name user_name password : Bytes) → Bytes
  password_creds domain_name user_name password =
      0x30
      ∷ asn1encode (
          (0xA0 ∷ asn1encode (octet_string domain_name))
          ++ ((0xA1 ∷ asn1encode (octet_string user_name))
              ++ (0xA2 ∷ asn1encode (octet_string password))))

  -- TSCredentials.get_data
  unfoldable pub credentials : (cred_type : ℕ) (creds : Bytes) → Bytes
  credentials cred_type creds =
      0x30
      ∷ asn1encode (
          (0xA0 ∷ asn1encode (0x02 ∷ asn1encode (cred_type ∷ [])))
          ++ (0xA1 ∷ asn1encode (octet_string creds)))
