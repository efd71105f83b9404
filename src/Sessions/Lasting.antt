-- ===== src/Sessions/Lasting.antt =====
-- How long a session that was just stored is answered with, where nothing but time passes.
use rdpproxy_v.Prelude.{
  ℕ, ◌+◌, ◌-◌, ◌<◌, ◌≡◌, refl, ap, ◌∙◌, inl, inr, Bool, true, false, not, ◌||◌, ◌&&◌, none, some,
  ltb, leb, Bool-cases, if◌then◌else◌, arith,
}
use rdpproxy_v.Prelude.Text.{Text, text_eq_refl}
use rdpproxy_v.Errors.{ok, map_result}
use rdpproxy_v.Crypto.{Crypto}
use rdpproxy_v.Redis.{Redis}
use rdpproxy_v.Redis.Values.{Value, web, admin, WebPayload, AdminPayload}
use rdpproxy_v.Redis.Keys
use rdpproxy_v.Sessions.Data.{Ttls}
use rdpproxy_v.Sessions.Defs.{
  fresh, mismatch, idle, verdict, fingerprint_digest, web_data, get_web_session,
}
use rdpproxy_v.Sessions.AdminWeb.{admin_data, admin_answer, get_admin_web_session}
use rdpproxy_v.Sessions.Web.{accepted, get_web_session_lem}
use rdpproxy_v.Sessions.Tokens.{live_or_gone}

since : (start n m : ℕ) (b : Bool) → ((b || true) && leb ((start + n) - start) m) ≡ leb n m
since start n m b = ground arith

accepted_after :
    (digest : Text) (start n m : ℕ) → accepted digest digest (start + n) start m ≡ leb n m
accepted_after digest start n m = rw (text_eq_refl digest) (since start n m _)

unbound :
    (b late : Bool)
    → (if b && false then mismatch else if late then idle else fresh)
      ≡ (if late then idle else fresh)
unbound true late = refl
unbound false late = refl

later : (start n m : ℕ) → ltb m ((start + n) - start) ≡ not (leb n m)
later start n m = ground arith

verdict_after :
    (digest : Text) (start n m : ℕ)
    → verdict digest digest (start + n) start m ≡ (if not (leb n m) then idle else fresh)
unfolding verdict
verdict_after digest start n m = rw (text_eq_refl digest, later start n m) (unbound _ _)

module _ (R : Redis) (c : Crypto) (cfg : Ttls) (lives : 0 < cfg.web_ttl) where
  open R use {State, get, ttl, setex, elapse, ttl-setex, ttl-elapse}

  time_left :
      (s : State) (k : Text) (v : Value) (n : ℕ)
      → ttl (elapse (setex s k cfg.web_ttl v) n) k ≡ cfg.web_ttl - n
  time_left s k v n =
      ttl-elapse (setex s k cfg.web_ttl v) n k
      ∙ ap (λ t. t - n) (ttl-setex s k cfg.web_ttl v k lives ∙ (rw (text_eq_refl k) refl))

  some_left : (n : ℕ) → ltb n cfg.web_ttl ≡ true → 0 < cfg.web_ttl - n
  some_left n h = ground arith

  pub get_web_session_after :
      (s : State) (session_id fp : Text) (p : WebPayload) (n : ℕ)
      → p.browser_fingerprint ≡ fingerprint_digest R c cfg fp
      → (get_web_session R c cfg none
          (p.last_seen_ts + n)
          (elapse (setex s (Keys.web_session session_id) cfg.web_ttl (web p)) n)
          session_id
          fp).0
        ≡ (if ltb n cfg.web_ttl && leb n cfg.web_idle_ttl
            then map_result some (web_data R c cfg session_id p)
            else ok none)
  unfolding get_web_session
  get_web_session_after s session_id fp p n bound =
      let key = Keys.web_session session_id in
      let there = live_or_gone R c cfg s key (web p) cfg.web_ttl n lives in
      elim (Bool-cases (ltb n cfg.web_ttl)) [
        | inl e ↦
            let live : 0 < ttl (elapse (setex s key cfg.web_ttl (web p)) n) key =
              rw (time_left s key (web p) n) (some_left n e) in
            let accept : accepted p.browser_fingerprint (fingerprint_digest R c cfg fp)
                  (p.last_seen_ts + n) p.last_seen_ts cfg.web_idle_ttl
                ≡ leb n cfg.web_idle_ttl =
              rw (← bound)
                (accepted_after p.browser_fingerprint p.last_seen_ts n cfg.web_idle_ttl) in
            (get_web_session_lem R c cfg (p.last_seen_ts + n)
              (elapse (setex s key cfg.web_ttl (web p)) n) session_id fp p (there ∙ (rw e refl))
              live).0
            ∙ (rw (accept, e) refl)
        | inr e ↦ rw (get_web_session, there, e) refl
      ]

  pub get_admin_web_session_after :
      (s : State) (session_id fp : Text) (p : AdminPayload) (n : ℕ)
      → p.browser_fingerprint ≡ fingerprint_digest R c cfg fp
      → (get_admin_web_session R c cfg none
          (p.last_seen_ts + n)
          (elapse (setex s (Keys.admin_web_session session_id) cfg.web_ttl (admin p)) n)
          session_id
          fp).0
        ≡ ok (
            if ltb n cfg.web_ttl && leb n cfg.web_idle_ttl
            then some (admin_data R c cfg session_id p)
            else none)
  unfolding get_admin_web_session admin_answer
  get_admin_web_session_after s session_id fp p n bound =
      let key = Keys.admin_web_session session_id in
      let there = live_or_gone R c cfg s key (admin p) cfg.web_ttl n lives in
      let found : verdict p.browser_fingerprint (fingerprint_digest R c cfg fp) (p.last_seen_ts + n)
            p.last_seen_ts cfg.web_idle_ttl
          ≡ (if not (leb n cfg.web_idle_ttl) then idle else fresh) =
        rw (← bound) (verdict_after p.browser_fingerprint p.last_seen_ts n cfg.web_idle_ttl) in
      elim (Bool-cases (ltb n cfg.web_ttl)) [
        | inl e ↦ elim (Bool-cases (leb n cfg.web_idle_ttl)) [
          | inl f ↦ rw (get_admin_web_session, there, e, found, f) refl
          | inr f ↦ rw (get_admin_web_session, there, e, found, f) refl
        ]
        | inr e ↦ rw (get_admin_web_session, there, e) refl
      ]
