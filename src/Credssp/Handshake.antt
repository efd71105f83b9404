-- ===== src/Credssp/Handshake.antt =====
-- connect_and_authenticate of credssp.py: what the proxy sends to a backend, and what it takes off
-- the backend's streams. NTLM, SPNEGO and the certificate are parameters.
pub mod Laws
use rdpproxy_v.Prelude.{
  ℕ, zero, suc, ◌+◌, ◌≡◌, Bool, Option, none, some, List, [], ◌∷◌, ◌++◌, ◌==◌, if◌then◌else◌,
}
use rdpproxy_v.Prelude.Text.{Bytes, Text, codes, starts_with}
use rdpproxy_v.Errors.{Error, Result, ok, err, key_error, timeout_error, other_error}
use rdpproxy_v.Stream.{Read}
use rdpproxy_v.Effect.{Action, pure, lift, ◌>>=◌, ◌>>◌}
use rdpproxy_v.Rdp.Tpkt.{read_tpkt}
use rdpproxy_v.Rdp.X224.{build_x224_cr, requested_protocols_hybrid}
use rdpproxy_v.Credssp.Der.{extract_raw_pubkey}
use rdpproxy_v.Credssp.TsRequest.{
  TsRequest, no_fields, from_string, get_data, password_creds, credentials,
}
use rdpproxy_v.Credssp.Records.{read_credssp_record}

-- `s.split(c, 1)` where c occurs.
unfoldable pub split_once : ℕ → Text → Option (Text × Text)
split_once c [] = none
split_once c (d ∷ s) =
    let rest = split_once c s in
    if d == c then some ([], s) else elim rest [ none ↦ none | some (a, b) ↦ some (d ∷ a, b) ]

-- The domain and the user.
unfoldable pub split_domain_user :
    (upper : Text → Text) (username fallback_domain : Text) → Text × Text
unfolding split_once
split_domain_user upper username fallback_domain = elim (split_once 92 username) [
  | some (domain, user) ↦ (domain, user)
  | none ↦ elim (split_once 64 username) [
    | some (user, domain) ↦ (domain, user)
    | none ↦ elim (split_once 46 fallback_domain) [
      | some (domain, _) ↦ (upper domain, username)
      | none ↦ (upper fallback_domain, username)
    ]
  ]
]

-- impacket's NTLM and SPNEGO. The cipher of a key has encrypted some messages before the one that
-- it encrypts; what it gives is the signature with the ciphertext behind it.
pub record Ntlm : Type 1 where
  pub Key : Type 0
  pub type1 : Bytes
  pub type3 : (challenge : Bytes) (user password domain : Text) → Result (Bytes × Key)
  pub nego_token_init : Bytes → Bytes
  pub nego_token_resp : Bytes → Bytes
  pub response_token : Bytes → Result Bytes
  pub encrypt : Key → (before : List Bytes) → Bytes → Bytes
  pub asn1encode : Bytes → Bytes
  pub upper : Text → Text
  pub encode_utf16 : Text → Bytes

-- What a handshake meets: the stream that the connection opens with, the stream within TLS, the
-- key of the certificate in DER, and the exceptions of the n-th `drain`.
pub record Backend : Type 0 where
  pub opened : Result Bytes
  pub secured : Result Bytes
  pub certificate_key : Result Bytes
  pub drain : ℕ → Option Error

-- How a read under a time limit ends: by itself, or by the limit, which leaves some of the stream.
pub data Wait : Type 0 where
  in_time : Wait
  timed_out : Bytes → Wait

-- What the log says of an answer that the handshake goes on without.
pub data Logged : Type 0 where
  received without_key timeout : Logged
  failed : Error → Logged

-- `sent` is in the order of the writes.
pub record Conn : Type 0 where
  pub incoming : Bytes
  pub sent : List Bytes
  pub drained : ℕ
  pub logged : List Logged

abbrev pub fresh_conn : Conn
fresh_conn = record { incoming = []; sent = []; drained = 0; logged = [] }

abbrev read_with : {A : Type 0} → Conn → Result A × Bytes → Result A × Conn
read_with c (r, rest) = (r, record c { incoming = rest })

abbrev pub reading : {A : Type 0} → Read A → Action Conn A
reading m c = read_with c (m c.incoming)

-- TSRequest(buff). The decoder's loop ends, so that the last case does not occur.
unfoldable pub ts_request : Bytes → Result TsRequest
unfolding from_string
ts_request [] = ok no_fields
ts_request (b ∷ buff) = elim (from_string (b ∷ buff)) [ some r ↦ r | none ↦ err other_error ]

abbrev pub nego_data_of : TsRequest → Result Bytes
nego_data_of r = elim r.nego_data [ some b ↦ ok b | none ↦ err key_error ]

abbrev pub note : Logged → Action Conn (Unit {0})
note l c = (ok tt, record c { logged = c.logged ++ (l ∷ []) })

-- `except TimeoutError` and `except Exception`.
abbrev pub logged_as : Error → Logged
logged_as timeout_error = timeout
logged_as e = failed e

-- "pubKeyAuth" in TSRequest(buff)
abbrev pub echo_of : Result Bytes → Logged
echo_of (err e) = logged_as e
echo_of (ok buff) = elim (ts_request buff) [
  | err e ↦ logged_as e
  | ok r ↦ elim r.pub_key_auth [ some _ ↦ received | none ↦ without_key ]
]

abbrev pub answer_of : Result Bytes → Logged
answer_of (err e) = logged_as e
answer_of (ok buff) = received

-- `try: ... asyncio.wait_for(_read_credssp_record(reader))`, whose handlers log.
unfoldable pub await_record : (Result Bytes → Logged) → Wait → Action Conn (Unit {0})
unfolding read_credssp_record
await_record log_of (timed_out rest) c = note timeout (record c { incoming = rest })
await_record log_of in_time c =
    let (r, rest) = read_credssp_record c.incoming in note (log_of r) (record c { incoming = rest })

module _ (N : Ntlm) where
  unfoldable pub extract_ntlm_from_resp : Bytes → Bytes
  unfolding starts_with
  extract_ntlm_from_resp nego_data =
      if starts_with (codes "NTLMSSP" ++ (0 ∷ [])) nego_data
      then nego_data
      else elim (N.response_token nego_data) [ ok token ↦ token | err e ↦ nego_data ]

  abbrev pub negotiate_message : Bytes
  negotiate_message =
      get_data N.asn1encode (record no_fields { nego_data = some (N.nego_token_init N.type1) })

  abbrev pub authenticate_message : Bytes → Bytes → Bytes
  authenticate_message type3 sealed_key = get_data N.asn1encode (record no_fields {
    nego_data = some (N.nego_token_resp type3);
    pub_key_auth = some sealed_key;
  })

  abbrev pub credentials_of : (domain user password : Text) → Bytes
  credentials_of domain user password = credentials N.asn1encode 1 (
      password_creds N.asn1encode (N.encode_utf16 domain) (N.encode_utf16 user)
        (N.encode_utf16 password))

  abbrev pub credentials_message : Bytes → Bytes
  credentials_message sealed = get_data N.asn1encode (record no_fields { auth_info = some sealed })

module _ (N : Ntlm) (backend : Backend) where
  -- `writer.write` and `drain`.
  unfoldable pub write : Bytes → Action Conn (Unit {0})
  write data_ c = (
    elim (backend.drain c.drained) [ none ↦ ok tt | some e ↦ err e ],
    record c { sent = c.sent ++ (data_ ∷ []); drained = suc c.drained },
  )

  abbrev pub open_connection : Action Conn (Unit {0})
  open_connection c = elim backend.opened [
    | err e ↦ (err e, c)
    | ok s ↦ (ok tt, record c { incoming = s })
  ]

  abbrev pub start_tls : Action Conn (Unit {0})
  start_tls c = elim backend.secured [
    | err e ↦ (err e, c)
    | ok s ↦ (ok tt, record c { incoming = s })
  ]

  -- From the connection to the start of TLS.
  unfoldable pub negotiate : Action Conn (Unit {0})
  unfolding write read_tpkt build_x224_cr
  negotiate = (do
    open_connection
    request ← lift (build_x224_cr requested_protocols_hybrid)
    write request
    confirm ← reading (read_tpkt [])
    start_tls)

  -- The NTLM messages, up to the challenge that the backend answers with.
  unfoldable pub receive_challenge : Action Conn Bytes
  unfolding write read_credssp_record ts_request extract_ntlm_from_resp
  receive_challenge = (do
    write (negotiate_message N)
    buff ← reading read_credssp_record
    ts_resp ← lift (ts_request buff)
    nego_data ← lift (nego_data_of ts_resp)
    pure (extract_ntlm_from_resp N nego_data))

  -- The answer to the challenge, with the backend's public key sealed.
  unfoldable pub authenticate :
      (challenge : Bytes) (user password domain : Text) → Action Conn (N.Key × Bytes)
  unfolding write extract_raw_pubkey
  authenticate challenge user password domain = (do
    (type3, key) ← lift (N.type3 challenge user password domain)
    spki ← lift backend.certificate_key
    server_pub_key ← lift (extract_raw_pubkey spki)
    write (authenticate_message N type3 (N.encrypt key [] server_pub_key))
    pure (key, server_pub_key))

  unfoldable pub connect_and_authenticate :
      (echo answer : Wait) (username password fallback_domain : Text) → Action Conn (Unit {0})
  unfolding split_domain_user negotiate receive_challenge authenticate await_record write
  connect_and_authenticate echo answer username password fallback_domain = (do
    negotiate
    let (domain, user) = split_domain_user N.upper username fallback_domain
    challenge ← receive_challenge
    (key, server_pub_key) ← authenticate challenge user password domain
    await_record echo_of echo
    write (
        credentials_message N
          (N.encrypt key (server_pub_key ∷ []) (credentials_of N domain user password)))
    await_record answer_of answer)
