-- ===== src/Relay/Handler/Refuses.antt =====
-- A client whose fingerprint is not the token's.
use rdpproxy_v.Prelude.{ℕ, ◌≡◌, refl, sym, true, false, Option, none, some, [], inl, inr, ◌⊎◌}
use mathlib.Core.Path.{subst}
use rdpproxy_v.Prelude.Text.{Bytes, Text, codes, text_eq, non_empty}
use rdpproxy_v.Errors.{Error, Result, ok, err, map_result}
use rdpproxy_v.Effect.{◌>>=◌}
use rdpproxy_v.Crypto.{Crypto}
use rdpproxy_v.Redis.{Redis}
use rdpproxy_v.Redis.Values
use rdpproxy_v.Redis.Keys
use rdpproxy_v.Crypto.{decrypt}
use rdpproxy_v.Rdp.Tpkt.{read_tpkt}
use rdpproxy_v.Rdp.X224.{extract_cookie_token, extract_requested_protocols}
use rdpproxy_v.Sessions.{
  fingerprint_digest, token_fingerprint_matches, session_data, password_aad, SessionData, Ttls,
  get_session,
}
use rdpproxy_v.Credssp.Handshake.{Ntlm}
use rdpproxy_v.Tracker.{World}
use rdpproxy_v.Relay.Handler.{
  fingerprint_of, Admitted, check_matches, check_fingerprint, admit_session, admit, serve_admitted,
  recover, after_body, handle,
}
use rdpproxy_v.Relay.Connection.{or_else, HandlerConfig, Incoming, Handling, abort_writer}

or_cases : {A : Type 0} (r : Result A) → ((e : Error) × (r ≡ err e)) ⊎ ((a : A) × (r ≡ ok a))
or_cases (err e) = inl (e, refl)
or_cases (ok a) = inr (a, refl)

matches_other :
    (R : Redis) (crypto : Crypto) (ttls : Ttls) (s : R.State) (token fp bound_to : Text)
    (p : Values.TokenPayload)
    → R.get s (Keys.token token) ≡ some (Values.token p)
    → p.fingerprint ≡ some bound_to
    → non_empty bound_to ≡ true
    → text_eq bound_to (fingerprint_digest R crypto ttls fp) ≡ false
    → token_fingerprint_matches R crypto ttls s token fp ≡ ok false
unfolding token_fingerprint_matches
matches_other R crypto ttls s token fp bound_to p found b n o =
    rw (found, token_fingerprint_matches) (rw b (rw (n, o) refl))

module _ (R : Redis) (crypto : Crypto) (ttls : Ttls) (parse_uuid : Text → Option Text) (N : Ntlm)
    (decode_utf8_ignore : Bytes → Text) (cfg : HandlerConfig) (i : Incoming R.State)
    (w : World R.State) (x token bound_to rest : Text) (p : Values.TokenPayload)
    (read : read_tpkt [] i.stream ≡ (ok x, rest))
    (cookie : extract_cookie_token decode_utf8_ignore x ≡ ok token)
    (found : R.get w.redis (Keys.token token) ≡ some (Values.token p))
    (bound_fp : p.fingerprint ≡ some bound_to) (is_bound : non_empty bound_to ≡ true)
    (enforced : or_else cfg.fingerprint_setting cfg.fingerprint_default ≡ true)
    (other : text_eq bound_to (
        fingerprint_digest R crypto ttls
          (fingerprint_of R crypto ttls parse_uuid N decode_utf8_ignore cfg i x token))
      ≡ false) where
  untouched : Handling R.State
  untouched = record { world = w; tracked_cid = none; aborted = false }

  -- Refused, or an exception.
  IsRefused :
      Result (Option (Admitted R crypto ttls parse_uuid N decode_utf8_ignore cfg i))
        × Handling R.State
      → Type 0
  IsRefused r = (r ≡ (ok none, abort_writer untouched)) ⊎ ((e : Error) × (r ≡ (err e, untouched)))

  no_match :
      token_fingerprint_matches R crypto ttls w.redis token
        (fingerprint_of R crypto ttls parse_uuid N decode_utf8_ignore cfg i x token)
      ≡ ok false
  no_match = matches_other R crypto ttls w.redis token _ bound_to p found bound_fp is_bound other

  session-IsRefused :
      (protocols : ℕ) (password : Text)
      → IsRefused (
          admit_session R crypto ttls parse_uuid N decode_utf8_ignore cfg i x token protocols
            (ok (
              some (record {
                token = token;
                username = p.username;
                target_host = p.target_host;
                target_port = p.target_port;
                password = password;
                fingerprint = p.fingerprint;
                server_id = p.server_id;
                server_display = p.server_display;
              })))
            untouched)
  unfolding admit_session check_fingerprint check_matches IsRefused untouched
  session-IsRefused protocols password =
      rw enforced (rw bound_fp (rw is_bound (rw no_match (inl refl))))

  data_of : Text → SessionData
  data_of password = record {
    token = token;
    username = p.username;
    target_host = p.target_host;
    target_port = p.target_port;
    password = password;
    fingerprint = p.fingerprint;
    server_id = p.server_id;
    server_display = p.server_display;
  }

  get_session-found :
      get_session R crypto ttls w.redis token
      ≡ map_result
          (λ password. some (data_of password))
          (decrypt crypto p.password_enc
            (password_aad R crypto ttls (codes "rdp:token") token p.username))
  unfolding get_session session_data data_of
  get_session-found = rw (found, get_session) (at (decrypt crypto p.password_enc _))
    where
      at :
          (r : Result Text)
          → map_result some (map_result data_of r)
            ≡ map_result (λ password. some (data_of password)) r
      at (ok a) = refl
      at (err e) = refl

  looked_up-IsRefused :
      (protocols : ℕ)
      → IsRefused (
          admit_session R crypto ttls parse_uuid N decode_utf8_ignore cfg i x token protocols
            (get_session R crypto ttls w.redis token)
            untouched)
  unfolding admit_session data_of IsRefused untouched
  looked_up-IsRefused protocols =
      subst
        (λ r. IsRefused (
          admit_session R crypto ttls parse_uuid N decode_utf8_ignore cfg i x token protocols r
            untouched))
        (sym get_session-found) (at (decrypt crypto p.password_enc _))
    where
      at :
          (r : Result Text)
          → IsRefused (
              admit_session R crypto ttls parse_uuid N decode_utf8_ignore cfg i x token protocols
                (map_result (λ password. some (data_of password)) r)
                untouched)
      at (ok password) = session-IsRefused protocols password
      at (err e) = inr (e, refl)

  admit-IsRefused : IsRefused (admit R crypto ttls parse_uuid N decode_utf8_ignore cfg i untouched)
  unfolding admit IsRefused untouched ◌>>=◌
  admit-IsRefused = rw read (
      rw cookie (elim (or_cases (extract_requested_protocols x)) [
        | inl (e, q) ↦ rw q (inr (e, refl))
        | inr (protocols, q) ↦ rw q (looked_up-IsRefused protocols)
      ]))

  -- A client that comes with a token which is bound to another fingerprint, while fingerprints are
  -- enforced, has its connection aborted, and nothing else happens: no row, no event and no key
  -- is written, whatever else its request says and whether or not the password can be decrypted.
  pub handle_refused :
      handle R crypto ttls parse_uuid N decode_utf8_ignore cfg i w
      ≡ record { world = w; tracked_cid = none; aborted = true }
  unfolding handle after_body recover serve_admitted IsRefused untouched ◌>>=◌
  handle_refused = elim admit-IsRefused [ inl e ↦ rw e refl | inr (x, e) ↦ rw e refl ]
