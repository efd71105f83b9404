-- ===== src/Credssp/TsRequest/Ends.antt =====
-- The loop of the decoder ends.

use rdpproxy_v.Prelude.{
  ℕ, zero, suc, ◌≤◌, ◌≡◌, ◌≢◌, refl, Bool, true, false, Option, none, some, [], ◌∷◌, length, drop,
  ◌==◌, if◌then◌else◌, arith, length-drop,
}
use rdpproxy_v.Prelude.Text.{Bytes}
use rdpproxy_v.Errors.{Result, ok, err, value_error}
use rdpproxy_v.Credssp.Der.{asn1decode}
use rdpproxy_v.Credssp.TsRequest.{
  TsRequest, no_fields, content, read_field, read_fields, from_string,
}

length-drop-le : (n : ℕ) (s : Bytes) → length (drop n s) ≤ length s
length-drop-le n s = omega (arith, length-drop n s)

read_fields_ends :
    (fuel : ℕ) (b : Bytes) (r : TsRequest) → length b ≤ fuel → read_fields fuel b r ≢ none
unfolding read_fields
read_fields_ends fuel [] r h e = cc
read_fields_ends zero (tag ∷ b) r h e = absurd (omega arith)
read_fields_ends (suc fuel) (tag ∷ b) r h e =
    at (read_field tag (asn1decode b).0 r)
      (λ r'. read_fields_ends fuel _ r' (omega (arith, length-drop-le (asn1decode b).1 b))) e
  where
    at :
        (m : Result TsRequest)
        → ((r' : TsRequest) → read_fields fuel (drop (asn1decode b).1 b) r' ≢ none)
        → (elim m as (λ _. Option (Result TsRequest)) [
          | err x ↦ some (err x)
          | ok r' ↦ read_fields fuel (drop (asn1decode b).1 b) r'
        ])
          ≢ none
    at (err x) later e = cc
    at (ok r') later e = later r' e

some_of : {A : Type 0} (o : Option A) → o ≢ none → (a : A) × (o ≡ some a)
some_of none h = absurd (h refl)
some_of (some a) h = (a, refl)

-- Whatever the bytes, the decoder's loop ends: with a request, or with an exception.
pub from_string_ends : (b : Bytes) → (m : Result TsRequest) × (from_string b ≡ some m)
unfolding from_string
from_string_ends [] = (_, refl)
from_string_ends (t ∷ rest) = at (t == 0x30)
  where
    at :
        (is_sequence : Bool)
        → (m : Result TsRequest) × ((if is_sequence
              then read_fields (length (content rest)) (content rest) no_fields
              else some (err value_error))
            ≡ some m)
    at true =
        some_of (read_fields (length (content rest)) (content rest) no_fields)
          (read_fields_ends (length (content rest)) (content rest) no_fields (omega arith))
    at false = (err value_error, refl)

-- How long the payload of a field is.
