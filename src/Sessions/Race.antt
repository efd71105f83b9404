-- ===== src/Sessions/Race.antt =====
-- Portal and admin sessions, where another client writes to the session between WATCH and EXEC.
use rdpproxy_v.Prelude.{ℕ, ◌<◌, ◌≡◌, refl, ap, ◌∙◌, some, List, length}
use rdpproxy_v.Prelude.Text.{Text, codes, text_eq_refl}
use rdpproxy_v.Errors.{ok, map_result}
use rdpproxy_v.Crypto.{Crypto, encrypt, decrypt-encrypt}
use rdpproxy_v.Redis.{Redis}
use rdpproxy_v.Redis.Values.{web, admin, WebPayload, AdminPayload}
use rdpproxy_v.Redis.Keys
use rdpproxy_v.Sessions.Defs.{
  Verdict, mismatch, verdict, password_aad, fingerprint_digest, create_web_session, web_data,
  web_answer, get_web_session,
}
use rdpproxy_v.Sessions.AdminWeb.{admin_data, admin_answer, get_admin_web_session}
use rdpproxy_v.Sessions.Data.{Ttls}

module _ (R : Redis) (c : Crypto) (cfg : Ttls) where
  open R use {State, get, setex, get-setex}

  web_answer_disturbed :
      (v : Verdict) (other : State → State) (session_id : Text) (p : WebPayload) (now : ℕ)
      (s : State)
      → (web_answer R c cfg v (some other) session_id p now s).0
        ≡ map_result some (web_data R c cfg session_id p)
  unfolding web_answer
  web_answer_disturbed mismatch other session_id p now s = refl
  web_answer_disturbed _ other session_id p now s = refl

  web_at_disturbed :
      (now : ℕ) (s : State) (session_id fp : Text) (other : State → State) (p : WebPayload)
      → get s (Keys.web_session session_id) ≡ some (web p)
      → (get_web_session R c cfg (some other) now s session_id fp).0
        ≡ (web_answer R c cfg
            (verdict p.browser_fingerprint
              (fingerprint_digest R c cfg fp)
              now
              p.last_seen_ts
              cfg.web_idle_ttl)
            (some other)
            session_id
            p
            now
            s).0
  unfolding get_web_session web_answer
  web_at_disturbed now s session_id fp other p e = rw (e, get_web_session) refl

  -- A created portal session, looked up with any browser fingerprint and at any time, while another
  -- client writes to it: the answer is the whole session with the decrypted password, also where
  -- the fingerprint is not the session's or the session has been idle too long. (The nonce has 12
  -- bytes, and the lifetime of sessions is positive.)
  pub get_web_session_disturbed :
      (session_id nonce username password : Text) (groups group_guids : List Text) (fp : Text)
      (created_at now : ℕ) (s : State) (other : State → State) (any_fp : Text)
      → length nonce ≡ 12
      → 0 < cfg.web_ttl
      → let created =
          (create_web_session R c cfg session_id nonce created_at s username password groups
            group_guids fp).1 in
        (get_web_session R c cfg (some other) now created session_id any_fp).0
        ≡ ok (
            some (record {
              session_id = session_id;
              username = username;
              groups = groups;
              group_guids = group_guids;
              password = password;
            }))
  get_web_session_disturbed session_id nonce username password groups group_guids fp created_at now
        s other any_fp drawn lives =
      let aad = password_aad R c cfg (codes "rdp:web") session_id username in
      let p : WebPayload = record {
        username = username;
        password_enc = encrypt c nonce password aad;
        groups = groups;
        group_guids = group_guids;
        browser_fingerprint = fingerprint_digest R c cfg fp;
        last_seen_ts = created_at;
      } in
      let key = Keys.web_session session_id in
      let created = setex s key cfg.web_ttl (web p) in
      unfold create_web_session in
      (web_at_disturbed now created session_id any_fp other p
          (get-setex s key cfg.web_ttl (web p) key lives ∙ (rw (text_eq_refl key) refl))
        ∙ web_answer_disturbed _ other session_id p now created
        ∙ (unfold web_data in (rw (decrypt-encrypt c nonce password aad drawn) refl)))

  admin_answer_disturbed :
      (v : Verdict) (other : State → State) (session_id : Text) (p : AdminPayload) (now : ℕ)
      (s : State)
      → (admin_answer R c cfg v (some other) session_id p now s).0
        ≡ some (admin_data R c cfg session_id p)
  unfolding admin_answer
  admin_answer_disturbed mismatch other session_id p now s = refl
  admin_answer_disturbed _ other session_id p now s = refl

  -- The same of an admin session that is in Redis: while another client writes to it, it is handed out whatever
  -- the fingerprint and the time.
  pub get_admin_web_session_disturbed :
      (session_id : Text) (p : AdminPayload) (now : ℕ) (s : State) (other : State → State)
      (fp : Text)
      → get s (Keys.admin_web_session session_id) ≡ some (admin p)
      → (get_admin_web_session R c cfg (some other) now s session_id fp).0
        ≡ ok (some (admin_data R c cfg session_id p))
  unfolding get_admin_web_session
  get_admin_web_session_disturbed session_id p now s other fp e =
      rw (e, get_admin_web_session)
        (ap ok (
          admin_answer_disturbed
            (verdict p.browser_fingerprint (fingerprint_digest R c cfg fp) now p.last_seen_ts
              cfg.web_idle_ttl)
            other session_id p now s))
