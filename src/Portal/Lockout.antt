-- ===== src/Portal/Lockout.antt =====
-- services/portal/routes/auth.py over security/login_limiter.py: guessing passwords locks the form.
use mathlib.Core.Path.{subst}
use rdpproxy_v.Prelude.{
  ℕ, suc, ◌+◌, ◌<◌, ◌≡◌, refl, ap, ◌∙◌, ◌⊎◌, inl, inr, Bool, true, false, some, List, [], ◌∷◌,
  length, All, Bool-cases, arith,
}
use rdpproxy_v.Prelude.Text.{Text, codes}
use rdpproxy_v.Errors.{Error, err}
use rdpproxy_v.Search.{strip}
use rdpproxy_v.Crypto.{Crypto}
use rdpproxy_v.Redis.{Redis}
use rdpproxy_v.Sessions.{Ttls}
use rdpproxy_v.Limiter.{portal_limiter, is_locked, uname, record_failure}
use rdpproxy_v.Limiter.Locks.{IsCounting, fail_times, fail_times-locks}
use rdpproxy_v.Limiter.Separated.{portal-IsSeparated}
use rdpproxy_v.Settings.{Json, Manager}
use rdpproxy_v.Settings.Params.{Base, security_params}
use rdpproxy_v.Portal.{
  Request, Directory, LoginReply, form, get_client_ip, csrf_ok, setting, failed, answered, unlocked,
  login,
}

module _ (R : Redis) (c : Crypto) (cfg : Ttls) (lower : Text → Text) (as_int : Json → ℕ)
    (as_str : Json → Text) (base : Base) (m : Manager) (session_id nonce : Text) (now : ℕ)
    (r : Request) (username csrf_token : Text) where
  open R use {State}

  abbrev max_attempts : ℕ
  max_attempts =
      setting R c cfg lower as_int as_str base (security_params base m)
        (codes "login_attempts_per_minute")

  abbrev pub lock_seconds : ℕ
  lock_seconds =
      setting R c cfg lower as_int as_str base (security_params base m) (codes "login_lock_seconds")

  abbrev pub attempt : Directory → Text → State → LoginReply × State
  attempt authenticate password s =
      login R c cfg lower as_int as_str base (some authenticate) m session_id nonce now r username
        password csrf_token s

  -- The form is posted with one password after the other.
  abbrev pub attempts : Directory → List Text → State → State
  attempts authenticate [] s = s
  attempts authenticate (p ∷ ps) s = attempts authenticate ps (attempt authenticate p s).1

  abbrev locked : State → Bool
  locked s = is_locked R lower portal_limiter s (get_client_ip r) username

  -- The directory refuses a password.
  abbrev pub Refuses : Directory → Text → Type 0
  Refuses authenticate p = (e : Error) × (authenticate (strip username) p ≡ err e)

  locked_out :
      (authenticate : Directory) (p : Text) (s : State)
      → csrf_ok r csrf_token ≡ true
      → locked s ≡ true
      → attempt authenticate p s ≡ (form 429, s)
  unfolding login
  locked_out authenticate p s valid e = rw (valid, e) refl

  counted_once :
      (authenticate : Directory) (p : Text) (s : State)
      → csrf_ok r csrf_token ≡ true
      → locked s ≡ false
      → Refuses authenticate p
      → (attempt authenticate p s).1 ≡ failed R c cfg lower as_int as_str base m r username s
  unfolding login unlocked answered
  counted_once authenticate p s valid e (raised, refused) = rw (valid, e, refused) refl

  module _ (positive : 0 < lock_seconds) (valid : csrf_ok r csrf_token ≡ true) where
    abbrev failures : ℕ → State → State
    failures =
        fail_times R lower portal_limiter portal-IsSeparated (get_client_ip r) username max_attempts
          lock_seconds positive

    -- After some attempts: locked, or as many failures recorded.
    abbrev Reached : ℕ → State → State → Type 0
    Reached n s t = (locked t ≡ true) ⊎ (t ≡ failures n s)

    attempt-Reached :
        (authenticate : Directory) (p : Text) (n : ℕ) (s t : State)
        → Refuses authenticate p
        → Reached n s t
        → Reached (suc n) s (attempt authenticate p t).1
    attempt-Reached authenticate p n s t refused reached = elim (Bool-cases (locked t)) [
      | inl e ↦
          inl
            (ap (λ (x : LoginReply × State). locked x.1) (locked_out authenticate p t valid e) ∙ e)
      | inr e ↦ elim reached [
        | inl e' ↦ cc
        | inr same ↦ inr (counted_once authenticate p t valid e refused ∙ recorded n s t same)
      ]
    ]
      where
        recorded :
            (n : ℕ) (s t : State)
            → t ≡ failures n s
            → failed R c cfg lower as_int as_str base m r username t ≡ failures (suc n) s
        recorded n s t same =
            unfold failed fail_times in
            (ap
              (λ u.
                record_failure R lower portal_limiter u (get_client_ip r) username max_attempts
                  lock_seconds)
              same)

    attempts-Reached :
        (authenticate : Directory) (ps : List Text) (n : ℕ) (s t : State)
        → All (Refuses authenticate) ps
        → Reached n s t
        → Reached (n + length ps) s (attempts authenticate ps t)
    attempts-Reached authenticate [] n s t refused reached =
        subst (λ (k : ℕ). Reached k s t) (omega arith) reached
    attempts-Reached authenticate (p ∷ ps) n s t (refused, more) reached =
        subst (λ (k : ℕ). Reached k s (attempts authenticate ps (attempt authenticate p t).1))
          (omega arith)
          (attempts-Reached authenticate ps (suc n) s (attempt authenticate p t).1 more
            (attempt-Reached authenticate p n s t refused reached))

    -- Once the form has been posted with one refused password more than the settings allow, from
    -- one address and for one user name, it answers 429 to every further password for that name
    -- from that address, the right one included, and changes nothing. (The form's token is valid,
    -- the lock has a time, the counters held counts at the start, and no time passes.)
    pub attempts-locked_out :
        (authenticate : Directory) (ps : List Text) (password : Text) (s : State)
        → IsCounting R lower portal_limiter portal-IsSeparated s
            (get_client_ip r)
            (uname R lower portal_limiter username)
        → length ps ≡ suc max_attempts
        → All (Refuses authenticate) ps
        → attempt authenticate password (attempts authenticate ps s)
          ≡ (form 429, attempts authenticate ps s)
    unfolding fail_times
    attempts-locked_out authenticate ps password s counting enough refused =
        let all : 0 + length ps ≡ suc max_attempts = omega (arith, enough) in
        locked_out authenticate password (attempts authenticate ps s) valid
          (elim (attempts-Reached authenticate ps 0 s s refused (inr refl)) [
            | inl e ↦ e
            | inr same ↦
                ap locked (same ∙ ap (λ (k : ℕ). failures k s) all)
                ∙ (fail_times-locks R lower portal_limiter portal-IsSeparated (get_client_ip r)
                    username max_attempts lock_seconds positive s (get_client_ip r) username
                    counting).1
          ])
