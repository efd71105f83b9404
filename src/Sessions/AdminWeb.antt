-- ===== src/Sessions/AdminWeb.antt =====
-- The methods of `SessionStore` on the sessions of administrators.
use rdpproxy_v.Prelude.{ℕ, Bool, Option, none, some, List, ltb, if◌then◌else◌}
use rdpproxy_v.Prelude.Text.{Text, text_eq}
use rdpproxy_v.Errors.{Result, ok, err, map_result}
use rdpproxy_v.Crypto.{Crypto}
use rdpproxy_v.Redis.{Redis}
use rdpproxy_v.Redis.Values.{admin, AdminPayload}
use rdpproxy_v.Redis.Keys
use rdpproxy_v.Sessions.Data.{AdminWebSessionData, Ttls, admin_payload}
use rdpproxy_v.Sessions.Defs.{
  Verdict, fresh, verdict, Interference, after_transaction, fingerprint_digest,
}

module _ (R : Redis) (c : Crypto) (cfg : Ttls) where
  open R use {State, get, ttl, setex, delete}

  unfoldable pub create_admin_web_session :
      (session_id : Text) (now : ℕ)
      → State
      → (admin_user_id username : Text) → (must_change_password : Bool)
      → (browser_fingerprint : Text) → (allowed_ips : List Text) → Text × State
  create_admin_web_session session_id now s admin_user_id username must_change fp allowed_ips = (
    session_id,
    setex s (Keys.admin_web_session session_id) cfg.web_ttl (
        admin (record {
          admin_user_id = admin_user_id;
          username = username;
          must_change_password = must_change;
          browser_fingerprint = fingerprint_digest R c cfg fp;
          last_seen_ts = now;
          allowed_ips = allowed_ips;
        })),
  )

  unfoldable pub admin_data : Text → AdminPayload → AdminWebSessionData
  admin_data session_id p = record {
    session_id = session_id;
    admin_user_id = p.admin_user_id;
    username = p.username;
    must_change_password = p.must_change_password;
    allowed_ips = p.allowed_ips;
  }

  unfoldable pub admin_answer :
      Verdict
      → Interference R c cfg
      → Text
      → AdminPayload
      → ℕ
      → State
      → Option AdminWebSessionData × State
  unfolding admin_data
  admin_answer fresh interference session_id p now s =
      let key = Keys.admin_web_session session_id in
      (
        some (admin_data session_id p),
        if ltb 0 (ttl s key)
            then after_transaction R c cfg interference
                (λ t. setex t key (ttl s key) (admin (record p { last_seen_ts = now }))) s
            else s,
      )
  admin_answer _ none session_id p now s = (none, delete s (Keys.admin_web_session session_id))
  admin_answer _ (some other) session_id p now s = (some (admin_data session_id p), other s)

  unfoldable pub get_admin_web_session :
      Interference R c cfg → ℕ → State → Text → Text → Result (Option AdminWebSessionData) × State
  unfolding admin_answer verdict text_eq
  get_admin_web_session interference now s session_id fp =
      elim (admin_payload (get s (Keys.admin_web_session session_id))) [
        | err e ↦ (err e, s)
        | ok none ↦ (ok none, s)
        | ok (some p) ↦
            (let (answer, s') =
                admin_answer
                  (verdict p.browser_fingerprint (fingerprint_digest R c cfg fp) now p.last_seen_ts
                    cfg.web_idle_ttl)
                  interference session_id p now s in
              (ok answer, s'))
      ]

  -- GET, TTL and SETEX, with no transaction.
  unfoldable pub update_admin_must_change : State → Text → Bool → Result State
  update_admin_must_change s session_id must_change =
      let key = Keys.admin_web_session session_id in
      map_result
        (λ found. elim found [
          | none ↦ s
          | some p ↦
              if ltb 0 (ttl s key)
              then setex s key (ttl s key) (admin (record p { must_change_password = must_change }))
              else s
        ])
        (admin_payload (get s key))

  unfoldable pub delete_admin_web_session : State → Text → State
  delete_admin_web_session s session_id = delete s (Keys.admin_web_session session_id)
