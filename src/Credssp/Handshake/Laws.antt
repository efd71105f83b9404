-- ===== src/Credssp/Handshake/Laws.antt =====
-- What a handshake sends to a backend that goes along with it.
use mathlib.Core.List.{append-nil}
use rdpproxy_v.Prelude.{
  ℕ, suc, ◌<◌, ◌≡◌, refl, sym, ap, ◌∙◌, Option, none, some, List, [], ◌∷◌, ◌++◌, length,
}
use rdpproxy_v.Prelude.Text.{Bytes, Text}
use rdpproxy_v.Errors.{Result, ok, err, other_error}
use rdpproxy_v.Rdp.Tpkt.{build_tpkt, read_tpkt}
use rdpproxy_v.Rdp.Tpkt.Laws.{read_tpkt-build_tpkt}
use rdpproxy_v.Rdp.X224.{build_x224_cr, requested_protocols_hybrid}
use rdpproxy_v.Credssp.Der.{IsAsn1Encode, extract_raw_pubkey}
use rdpproxy_v.Credssp.TsRequest.{TsRequest, get_data, from_string}
use rdpproxy_v.Credssp.TsRequest.Laws.{fields_size, from_string-get_data}
use rdpproxy_v.Credssp.Records.{read_credssp_record-get_data}
use rdpproxy_v.Effect.{◌>>=◌}
use rdpproxy_v.Credssp.Handshake.{
  fresh_conn, split_domain_user, Ntlm, Backend, Wait, in_time, timed_out, Logged, Conn, answer_of,
  ts_request, echo_of, await_record, write, extract_ntlm_from_resp, negotiate_message,
  authenticate_message, credentials_of, credentials_message, negotiate, receive_challenge,
  authenticate, connect_and_authenticate,
}

-- The Connection Request that asks for TLS or CredSSP.
abbrev pub request : Bytes
request = 3 ∷ 0 ∷ 0 ∷ 19 ∷ 0x0E ∷ 0xE0 ∷ 0 ∷ 0 ∷ 0 ∷ 0 ∷ 0 ∷ 1 ∷ 0 ∷ 8 ∷ 0 ∷ 3 ∷ 0 ∷ 0 ∷ 0 ∷ []

build_request : build_x224_cr requested_protocols_hybrid ≡ ok request
unfolding build_x224_cr
build_request = refl

ok_inj : (a b : Bytes) → ok a ≡ ok b → a ≡ b
ok_inj a b e = ap (λ (r : Result Bytes). elim r [ ok x ↦ x | err _ ↦ [] ]) e

read_frame :
    (confirm frame rest : Bytes)
    → length confirm < 65532
    → build_tpkt confirm ≡ ok frame
    → read_tpkt [] (frame ++ rest) ≡ (ok confirm, rest)
read_frame confirm frame rest h e =
    let (built, b, r) = read_tpkt-build_tpkt confirm rest h in
    ap (λ f. read_tpkt [] (f ++ rest)) (ok_inj frame built (sym e ∙ b)) ∙ r

-- Waiting for an answer raises nothing and sends nothing.
await_record_lem :
    (log_of : Result Bytes → Logged) (w : Wait) (c : Conn)
    → (c' : Conn) × (await_record log_of w c ≡ (ok tt, c')) × (c'.sent ≡ c.sent)
unfolding await_record
await_record_lem log_of (timed_out rest) c = (_, refl, refl)
await_record_lem log_of in_time c = (_, refl, refl)

module _ (N : Ntlm) where
  abbrev pub identity : (username fallback_domain : Text) → Text × Text
  identity username fallback_domain = split_domain_user N.upper username fallback_domain

  -- The messages of a whole handshake, in their order.
  abbrev pub messages :
      (type3 key_bytes : Bytes) (key : N.Key) (username password fallback_domain : Text)
      → List Bytes
  messages type3 key_bytes key username password fallback_domain =
      let (domain, user) = identity username fallback_domain in
      request
      ∷ negotiate_message N
      ∷ authenticate_message N type3 (N.encrypt key [] key_bytes)
      ∷ credentials_message N
          (N.encrypt key (key_bytes ∷ []) (credentials_of N domain user password))
      ∷ []

module _ (N : Ntlm) (backend : Backend) (drains : (n : ℕ) → backend.drain n ≡ none) where
  write_lem :
      (b : Bytes) (c : Conn)
      → write N backend b c
        ≡ (ok tt, record c { sent = c.sent ++ (b ∷ []); drained = suc c.drained })
  unfolding write
  write_lem b c = rw (drains c.drained) refl

  negotiate_lem :
      (confirm frame rest secure : Bytes)
      → length confirm < 65532
      → build_tpkt confirm ≡ ok frame
      → backend.opened ≡ ok (frame ++ rest)
      → backend.secured ≡ ok secure
      → negotiate N backend fresh_conn
        ≡ (ok tt, record fresh_conn { incoming = secure; sent = request ∷ []; drained = 1 })
  unfolding negotiate build_x224_cr write ◌>>=◌
  negotiate_lem confirm frame rest secure fits framed opened secured =
      let c1 = record fresh_conn { incoming = frame ++ rest } in
      rw opened (rw (drains 0) (rw (read_frame confirm frame rest fits framed) (rw secured refl)))

  module _ (der : IsAsn1Encode N.asn1encode) (r : TsRequest) (token : Bytes)
      (small : fields_size r < 65000) (nego : r.nego_data ≡ some token) where
    ts_request-get_data : ts_request (get_data N.asn1encode r) ≡ ok r
    unfolding ts_request get_data
    ts_request-get_data =
        ap (λ b. value (from_string b)) (sym (append-nil (get_data N.asn1encode r)))
        ∙ ap value (from_string-get_data N.asn1encode der r [] small)
      where
        value : Option (Result TsRequest) → Result TsRequest
        value (some m) = m
        value none = err other_error

    receive_challenge_lem :
        (c : Conn) (later : Bytes)
        → c.incoming ≡ get_data N.asn1encode r ++ later
        → receive_challenge N backend c ≡ (
          ok (extract_ntlm_from_resp N token),
          record {
            incoming = later;
            sent = c.sent ++ (negotiate_message N ∷ []);
            drained = suc c.drained;
            logged = c.logged;
          },
        )
    unfolding receive_challenge write ◌>>=◌
    receive_challenge_lem c later e =
        let c1 = record c {
          sent = c.sent ++ (negotiate_message N ∷ []);
          drained = suc c.drained;
        } in
        rw (drains c.drained) (
          rw (e, read_credssp_record-get_data N.asn1encode der r later small, ts_request-get_data)
            (rw nego refl))

    -- Whatever the backend sends behind its challenge.
    module _ (later : Bytes) (type3 spki key_bytes : Bytes) (key : N.Key)
        (username password fallback_domain : Text) where
      authenticate_lem :
          (c : Conn) (challenge : Bytes)
          → N.type3 challenge
              (identity N username fallback_domain).1
              password
              (identity N username fallback_domain).0
            ≡ ok (type3, key)
          → backend.certificate_key ≡ ok spki
          → extract_raw_pubkey spki ≡ ok key_bytes
          → authenticate N backend challenge
              (identity N username fallback_domain).1
              password
              (identity N username fallback_domain).0
              c
            ≡ (
              ok (key, key_bytes),
              record c {
                sent = c.sent ++ (authenticate_message N type3 (N.encrypt key [] key_bytes) ∷ []);
                drained = suc c.drained;
              },
            )
      unfolding authenticate write ◌>>=◌
      authenticate_lem c challenge t cert k = rw (t, cert, k) (rw (drains c.drained) refl)

      -- A backend that confirms the request in a frame of its own, starts TLS and answers the
      -- first message with a TSRequest of less than 65000 bytes in its fields, whose challenge NTLM
      -- can answer and whose certificate has a key, is sent the password's message fourth and last,
      -- and the handshake succeeds: whatever the backend sends after its challenge, which is where
      -- it would prove that it knows its key, and however long it takes.
      pub connect_and_authenticate_lem :
          (confirm frame rest : Bytes) (echo answer : Wait)
          → length confirm < 65532
          → build_tpkt confirm ≡ ok frame
          → backend.opened ≡ ok (frame ++ rest)
          → backend.secured ≡ ok (get_data N.asn1encode r ++ later)
          → N.type3
              (extract_ntlm_from_resp N token)
              (identity N username fallback_domain).1
              password
              (identity N username fallback_domain).0
            ≡ ok (type3, key)
          → backend.certificate_key ≡ ok spki
          → extract_raw_pubkey spki ≡ ok key_bytes
          → (c : Conn) × (connect_and_authenticate N backend echo answer username password
                fallback_domain fresh_conn
              ≡ (ok tt, c))
            × (c.sent ≡ messages N type3 key_bytes key username password fallback_domain)
      unfolding connect_and_authenticate write ◌>>=◌ await_record_lem
      connect_and_authenticate_lem confirm frame rest echo answer fits framed opened secured t cert
            k =
          let c1 : Conn = record {
            incoming = get_data N.asn1encode r ++ later;
            sent = request ∷ [];
            drained = 1;
            logged = [];
          } in
          let c2 : Conn = record c1 {
            incoming = later;
            sent = request ∷ negotiate_message N ∷ [];
            drained = 2;
          } in
          let c3 : Conn = record c2 {
            sent = c2.sent ++ (authenticate_message N type3 (N.encrypt key [] key_bytes) ∷ []);
            drained = 3;
          } in
          let (c4, a4, s4) = await_record_lem echo_of echo c3 in
          let last = credentials_message N (
            N.encrypt key (key_bytes ∷ []) (
              credentials_of N (identity N username fallback_domain).0
                (identity N username fallback_domain).1 password)) in
          let c5 : Conn = record c4 { sent = c4.sent ++ (last ∷ []); drained = suc c4.drained } in
          let (c6, a6, s6) = await_record_lem answer_of answer c5 in
          (
            c6,
            rw (negotiate_lem confirm frame rest _ fits framed opened secured) (
                rw (receive_challenge_lem c1 later refl)
                  (rw (authenticate_lem c2 _ t cert k) (rw a4 (rw (drains c4.drained) a6)))),
            s6 ∙ ap (λ m. m ++ (last ∷ [])) s4,
          )
