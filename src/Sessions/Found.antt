-- ===== src/Sessions/Found.antt =====
-- What an answer of `get_web_session` or `get_admin_web_session` says of Redis, whatever other
-- clients write during the look.
use rdpproxy_v.Prelude.{ℕ, ◌≡◌, refl, ◌⊎◌, inl, inr, Bool, true, Option, none, some}
use rdpproxy_v.Prelude.Text.{Text}
use rdpproxy_v.Errors.{Result, ok, err, map_result}
use rdpproxy_v.Crypto.{Crypto}
use rdpproxy_v.Redis.{Redis}
use rdpproxy_v.Redis.Values.{
  Value, token, web, admin, active, number, text, WebPayload, AdminPayload,
}
use rdpproxy_v.Redis.Keys
use rdpproxy_v.Sessions.Data.{WebSessionData, AdminWebSessionData, Ttls, web_payload, admin_payload}
use rdpproxy_v.Sessions.Defs.{
  Verdict, fresh, mismatch, idle, verdict, Interference, fingerprint_digest, web_data, web_answer,
  get_web_session,
}
use rdpproxy_v.Sessions.AdminWeb.{admin_data, admin_answer, get_admin_web_session}
use rdpproxy_v.Sessions.Web.{accepted, Judged, verdict_lem}

answered_some : {A : Type 0} (x : Result A) (a : A) → map_result some x ≡ ok (some a) → x ≡ ok a
unfolding map_result
answered_some (ok b) a h = cc
answered_some (err e) a h = cc

Judged-fresh : (a : Bool) (v : Verdict) → Judged a v → v ≡ fresh → a ≡ true
Judged-fresh a v (inl (yes_, e)) h = yes_
Judged-fresh a v (inr (no_, ne)) h = absurd (ne h)

module _ (R : Redis) (c : Crypto) (cfg : Ttls) where
  open R use {State, get}

  -- Another client wrote to the session between WATCH and EXEC.
  abbrev pub IsDisturbed : Interference R c cfg → Type 0
  IsDisturbed interference = (other : State → State) × (interference ≡ some other)

  -- The session is bound to the fingerprint and not idle, or the look was disturbed.
  abbrev pub IsLive : Interference R c cfg → ℕ → Text → Text → ℕ → Type 0
  IsLive interference now fp bound last_seen =
      (accepted bound (fingerprint_digest R c cfg fp) now last_seen cfg.web_idle_ttl ≡ true)
      ⊎ IsDisturbed interference

  verdict-IsLive :
      (interference : Interference R c cfg) (now : ℕ) (fp bound : Text) (last_seen : ℕ)
      → (verdict bound (fingerprint_digest R c cfg fp) now last_seen cfg.web_idle_ttl ≡ fresh)
        ⊎ IsDisturbed interference
      → IsLive interference now fp bound last_seen
  verdict-IsLive interference now fp bound last_seen (inl e) =
      let digest = fingerprint_digest R c cfg fp in
      inl (
        Judged-fresh (accepted bound digest now last_seen cfg.web_idle_ttl)
          (verdict bound digest now last_seen cfg.web_idle_ttl)
          (verdict_lem bound digest now last_seen cfg.web_idle_ttl) e)
  verdict-IsLive interference now fp bound last_seen (inr d) = inr d

  web_answered :
      (v : Verdict) (interference : Interference R c cfg) (session_id : Text) (p : WebPayload)
      (now : ℕ) (s : State) (session : WebSessionData)
      → (web_answer R c cfg v interference session_id p now s).0 ≡ ok (some session)
      → (web_data R c cfg session_id p ≡ ok session) × ((v ≡ fresh) ⊎ IsDisturbed interference)
  unfolding web_answer
  web_answered fresh interference session_id p now s session h =
      (answered_some (web_data R c cfg session_id p) session h, inl refl)
  web_answered mismatch none session_id p now s session h = cc
  web_answered mismatch (some other) session_id p now s session h =
      (answered_some (web_data R c cfg session_id p) session h, inr (other, refl))
  web_answered idle none session_id p now s session h = cc
  web_answered idle (some other) session_id p now s session h =
      (answered_some (web_data R c cfg session_id p) session h, inr (other, refl))

  -- The portal session that is stored under an id.
  abbrev pub WebStored : Interference R c cfg → ℕ → State → Text → Text → WebSessionData → Type 0
  WebStored interference now s session_id fp session =
      (p : WebPayload) × (get s (Keys.web_session session_id) ≡ some (web p))
      × (web_data R c cfg session_id p ≡ ok session)
      × IsLive interference now fp p.browser_fingerprint p.last_seen_ts

  pub get_web_session-WebStored :
      (interference : Interference R c cfg) (now : ℕ) (s : State) (session_id fp : Text)
      (session : WebSessionData)
      → (get_web_session R c cfg interference now s session_id fp).0 ≡ ok (some session)
      → WebStored interference now s session_id fp session
  unfolding get_web_session
  get_web_session-WebStored interference now s session_id fp session h =
      at (get s (Keys.web_session session_id)) refl h
    where
      at :
          (o : Option Value)
          → get s (Keys.web_session session_id) ≡ o
          → (elim (web_payload o) as (λ _. Result (Option WebSessionData) × State) [
            | err e ↦ (err e, s)
            | ok none ↦ (ok none, s)
            | ok (some p) ↦
                web_answer R c cfg
                  (verdict p.browser_fingerprint
                    (fingerprint_digest R c cfg fp)
                    now
                    p.last_seen_ts
                    cfg.web_idle_ttl)
                  interference
                  session_id
                  p
                  now
                  s
          ]).0
            ≡ ok (some session)
          → WebStored interference now s session_id fp session
      at none e h = cc
      at (some (token p)) e h = cc
      at (some (admin p)) e h = cc
      at (some (active p)) e h = cc
      at (some (number n)) e h = cc
      at (some (text t)) e h = cc
      at (some (web p)) e h =
          let v =
            verdict p.browser_fingerprint (fingerprint_digest R c cfg fp) now p.last_seen_ts
              cfg.web_idle_ttl in
          let (data_, why) = web_answered v interference session_id p now s session h in
          (p, e, data_, verdict-IsLive interference now fp p.browser_fingerprint p.last_seen_ts why)

  admin_answered :
      (v : Verdict) (interference : Interference R c cfg) (session_id : Text) (p : AdminPayload)
      (now : ℕ) (s : State) (session : AdminWebSessionData)
      → (admin_answer R c cfg v interference session_id p now s).0 ≡ some session
      → (admin_data R c cfg session_id p ≡ session) × ((v ≡ fresh) ⊎ IsDisturbed interference)
  unfolding admin_answer
  admin_answered fresh interference session_id p now s session h = (cc, inl refl)
  admin_answered mismatch none session_id p now s session h = cc
  admin_answered mismatch (some other) session_id p now s session h = (cc, inr (other, refl))
  admin_answered idle none session_id p now s session h = cc
  admin_answered idle (some other) session_id p now s session h = (cc, inr (other, refl))

  -- The session of an administrator that is stored under an id.
  abbrev pub AdminStored :
      Interference R c cfg → ℕ → State → Text → Text → AdminWebSessionData → Type 0
  AdminStored interference now s session_id fp session =
      (p : AdminPayload) × (get s (Keys.admin_web_session session_id) ≡ some (admin p))
      × (admin_data R c cfg session_id p ≡ session)
      × IsLive interference now fp p.browser_fingerprint p.last_seen_ts

  pub get_admin_web_session-AdminStored :
      (interference : Interference R c cfg) (now : ℕ) (s : State) (session_id fp : Text)
      (session : AdminWebSessionData)
      → (get_admin_web_session R c cfg interference now s session_id fp).0 ≡ ok (some session)
      → AdminStored interference now s session_id fp session
  unfolding get_admin_web_session
  get_admin_web_session-AdminStored interference now s session_id fp session h =
      at (get s (Keys.admin_web_session session_id)) refl h
    where
      at :
          (o : Option Value)
          → get s (Keys.admin_web_session session_id) ≡ o
          → (elim (admin_payload o) as (λ _. Result (Option AdminWebSessionData) × State) [
            | err e ↦ (err e, s)
            | ok none ↦ (ok none, s)
            | ok (some p) ↦
                (let (answer, s') =
                    admin_answer R c cfg
                      (verdict p.browser_fingerprint
                        (fingerprint_digest R c cfg fp)
                        now
                        p.last_seen_ts
                        cfg.web_idle_ttl)
                      interference
                      session_id
                      p
                      now
                      s in
                  (ok answer, s'))
          ]).0
            ≡ ok (some session)
          → AdminStored interference now s session_id fp session
      at none e h = cc
      at (some (token p)) e h = cc
      at (some (web p)) e h = cc
      at (some (active p)) e h = cc
      at (some (number n)) e h = cc
      at (some (text t)) e h = cc
      at (some (admin p)) e h =
          let v =
            verdict p.browser_fingerprint (fingerprint_digest R c cfg fp) now p.last_seen_ts
              cfg.web_idle_ttl in
          let (data_, why) = admin_answered v interference session_id p now s session (cc h) in
          (p, e, data_, verdict-IsLive interference now fp p.browser_fingerprint p.last_seen_ts why)
