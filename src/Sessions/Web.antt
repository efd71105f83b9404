-- ===== src/Sessions/Web.antt =====
-- Portal and admin sessions, where no other client writes to them meanwhile: when they are
-- accepted, and what a look at a session does to it.
use rdpproxy_v.Prelude.{
  ℕ, ◌-◌, ◌<◌, ◌≡◌, ◌≢◌, refl, ◌∙◌, Bool, true, false, ◌&&◌, ◌||◌, not, none, some, ltb, leb,
  if◌then◌else◌, arith, lt→ltb, Bool-cases, inl, inr, ◌⊎◌,
}
use rdpproxy_v.Prelude.Text.{Text, text_eq, text_eq_refl, non_empty}
use rdpproxy_v.Errors.{ok, map_result}
use rdpproxy_v.Crypto.{Crypto}
use rdpproxy_v.Redis.{Redis}
use rdpproxy_v.Redis.Values.{web, WebPayload}
use rdpproxy_v.Redis.Keys
use rdpproxy_v.Sessions.Defs.{
  Verdict, mismatch, idle, fresh, verdict, fingerprint_digest, web_data, web_answer,
  get_web_session,
}
use rdpproxy_v.Sessions.Data.{Ttls}

-- The fingerprint is the bound one, if one is bound, and the session has not been idle too long.
abbrev pub accepted : Text → Text → ℕ → ℕ → ℕ → Bool
accepted expected digest now last_seen idle_ttl =
    (not (non_empty expected) || text_eq expected digest) && leb (now - last_seen) idle_ttl

abbrev pub Judged : Bool → Verdict → Type 0
Judged a v = ((a ≡ true) × (v ≡ fresh)) ⊎ ((a ≡ false) × (v ≢ fresh))

within_idle : (n m : ℕ) → Judged (leb n m) (if ltb m n then idle else fresh)
within_idle n m = elim (Bool-cases (ltb m n)) [
  | inl late ↦ rw late (inr (ground arith, λ e. cc))
  | inr soon ↦ rw soon (inl (ground arith, refl))
]

judge :
    (a b : Bool) (n m : ℕ)
    → Judged
        ((not a || b) && leb n m)
        (if a && not b then mismatch else if ltb m n then idle else fresh)
judge true true n m = within_idle n m
judge true false n m = inr (refl, λ e. cc)
judge false b n m = within_idle n m

pub verdict_lem :
    (expected digest : Text) (now last_seen idle_ttl : ℕ)
    → Judged
        (accepted expected digest now last_seen idle_ttl)
        (verdict expected digest now last_seen idle_ttl)
unfolding verdict
verdict_lem expected digest now last_seen idle_ttl =
    judge (non_empty expected) (text_eq expected digest) (now - last_seen) idle_ttl

module _ (R : Redis) (c : Crypto) (cfg : Ttls) where
  open R use {State, get, ttl, setex, delete, get-setex, ttl-setex, get-delete, ttl-delete}

  web_looked :
      (v : Verdict) (accept : Bool) (session_id : Text) (p : WebPayload) (now : ℕ) (s : State)
      → 0 < ttl s (Keys.web_session session_id)
      → Judged accept v
      → let look = web_answer R c cfg v none session_id p now s in
        let key = Keys.web_session session_id in
        (look.0 ≡ (if accept then map_result some (web_data R c cfg session_id p) else ok none))
        × (get look.1 key ≡ (if accept then some (web (record p { last_seen_ts = now })) else none))
        × (ttl look.1 key ≡ (if accept then ttl s key else 0))
  unfolding web_answer
  web_looked fresh accept session_id p now s live (inl (yes_, _)) =
      let key = Keys.web_session session_id in
      let v = web (record p { last_seen_ts = now }) in
      rw (yes_, lt→ltb 0 (ttl s key) live)
        (
          refl,
          get-setex s key (ttl s key) v key live ∙ (rw (text_eq_refl key) refl),
          ttl-setex s key (ttl s key) v key live ∙ (rw (text_eq_refl key) refl),
        )
  web_looked fresh accept session_id p now s live (inr (_, ne)) = absurd (ne refl)
  web_looked mismatch accept session_id p now s live (inl (_, e)) = cc
  web_looked mismatch accept session_id p now s live (inr (no_, _)) =
      let key = Keys.web_session session_id in
      rw no_ (
        refl,
        get-delete s key key ∙ (rw (text_eq_refl key) refl),
        ttl-delete s key key ∙ (rw (text_eq_refl key) refl),
      )
  web_looked idle accept session_id p now s live (inl (_, e)) = cc
  web_looked idle accept session_id p now s live (inr (no_, _)) =
      let key = Keys.web_session session_id in
      rw no_ (
        refl,
        get-delete s key key ∙ (rw (text_eq_refl key) refl),
        ttl-delete s key key ∙ (rw (text_eq_refl key) refl),
      )

  web_at :
      (now : ℕ) (s : State) (session_id fp : Text) (p : WebPayload)
      → get s (Keys.web_session session_id) ≡ some (web p)
      → get_web_session R c cfg none now s session_id fp
        ≡ web_answer R c cfg
            (verdict p.browser_fingerprint
              (fingerprint_digest R c cfg fp)
              now
              p.last_seen_ts
              cfg.web_idle_ttl)
            none
            session_id
            p
            now
            s
  unfolding get_web_session web_answer
  web_at now s session_id fp p e = rw (e, get_web_session) refl

  -- A look at a portal session with a lifetime left, that no other client disturbs. It is accepted exactly if its
  -- fingerprint matches and it was seen within the idle time; then its data is the answer, its
  -- last_seen_ts becomes now and its remaining lifetime stays. If not, the answer is None and the
  -- session is deleted.
  pub get_web_session_lem :
      (now : ℕ) (s : State) (session_id fp : Text) (p : WebPayload)
      → get s (Keys.web_session session_id) ≡ some (web p)
      → 0 < ttl s (Keys.web_session session_id)
      → let accept =
          accepted p.browser_fingerprint
            (fingerprint_digest R c cfg fp)
            now
            p.last_seen_ts
            cfg.web_idle_ttl in
        let look = get_web_session R c cfg none now s session_id fp in
        let key = Keys.web_session session_id in
        (look.0 ≡ (if accept then map_result some (web_data R c cfg session_id p) else ok none))
        × (get look.1 key ≡ (if accept then some (web (record p { last_seen_ts = now })) else none))
        × (ttl look.1 key ≡ (if accept then ttl s key else 0))
  get_web_session_lem now s session_id fp p e live =
      let digest = fingerprint_digest R c cfg fp in
      rw (web_at now s session_id fp p e) (
        web_looked (verdict p.browser_fingerprint digest now p.last_seen_ts cfg.web_idle_ttl)
          (accepted p.browser_fingerprint digest now p.last_seen_ts cfg.web_idle_ttl) session_id p
          now s live (verdict_lem p.browser_fingerprint digest now p.last_seen_ts cfg.web_idle_ttl))
