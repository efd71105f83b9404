-- ===== src/Limiter/Namespaces.antt =====
-- `clear` undoes the counting and no lock, and the two limiters do not see each other.
use rdpproxy_v.Prelude.{ℕ, ◌<◌, ◌≡◌, refl, ap, ◌∙◌, false, Option, none, if◌then◌else◌}
use mathlib.Core.Bool.{and-false}
use rdpproxy_v.Prelude.Text.{Text, text_eq, text_eq_refl}
use rdpproxy_v.Redis.{Redis}
use rdpproxy_v.Redis.Values.{Value, count_of}
use rdpproxy_v.Limiter.{
  LoginLimiter, portal_limiter, admin_limiter, uname, is_locked, record_failure, clear,
}
use rdpproxy_v.Limiter.Locks.{
  IsCounting, fails_ip, fails_user, get-record_failure, get-count_failure,
}
use rdpproxy_v.Limiter.Separated.{IsSeparated, portal-IsSeparated}

module _ (R : Redis) (lower : Text → Text) (l : LoginLimiter) (sep : IsSeparated l) where
  open R use {State, get, get-delete}

  get-clear :
      (s : State) (ip username j : Text)
      → let name = uname R lower l username in
        get (clear R lower l s ip username) j ≡ (
          if text_eq (l.fail_user name) j
          then none
          else if text_eq (l.fail_ip ip) j
          then none
          else get s j)
  unfolding clear
  get-clear s ip username j =
      get-delete _ (l.fail_user (uname R lower l username)) j
      ∙ ap
          (λ (o : Option Value).
            if text_eq (l.fail_user (uname R lower l username)) j then none else o)
          (get-delete s (l.fail_ip ip) j)

  clear_fail_ip :
      (s : State) (ip username : Text) → get (clear R lower l s ip username) (l.fail_ip ip) ≡ none
  clear_fail_ip s ip username =
      get-clear s ip username (l.fail_ip ip)
      ∙ simp (sep.fail_user_ip (uname R lower l username) ip, text_eq_refl (l.fail_ip ip))

  clear_fail_user :
      (s : State) (ip username : Text)
      → get (clear R lower l s ip username) (l.fail_user (uname R lower l username)) ≡ none
  clear_fail_user s ip username =
      get-clear s ip username (l.fail_user (uname R lower l username))
      ∙ simp (text_eq_refl (l.fail_user (uname R lower l username)))

  clear_lock_ip :
      (s : State) (ip username a : Text)
      → get (clear R lower l s ip username) (l.lock_ip a) ≡ get s (l.lock_ip a)
  clear_lock_ip s ip username a =
      get-clear s ip username (l.lock_ip a)
      ∙ simp (sep.fail_user_lock_ip (uname R lower l username) a, sep.fail_ip_lock_ip ip a)

  clear_lock_user :
      (s : State) (ip username b : Text)
      → get (clear R lower l s ip username) (l.lock_user b) ≡ get s (l.lock_user b)
  clear_lock_user s ip username b =
      get-clear s ip username (l.lock_user b)
      ∙ simp (sep.fail_user_lock_user (uname R lower l username) b, sep.fail_ip_lock_user ip b)

  -- After `clear` the address and the user name have no failures; a lock that is set stays set,
  -- for everybody. (The four key patterns are apart.)
  pub clear_lem :
      (s : State) (ip username a other : Text)
      → (fails_ip R lower l sep (clear R lower l s ip username) ip ≡ 0)
        × (fails_user R lower l sep (clear R lower l s ip username) (uname R lower l username) ≡ 0)
        × (is_locked R lower l (clear R lower l s ip username) a other
            ≡ is_locked R lower l s a other)
  unfolding is_locked
  clear_lem s ip username a other = (
    ap count_of (clear_fail_ip s ip username),
    ap count_of (clear_fail_user s ip username),
    rw (clear_lock_ip s ip username a, clear_lock_user s ip username (uname R lower l other)) refl,
  )

-- A limiter that works under other keys.
record IsApart (l m : LoginLimiter) : Type 0 where
  fail_ip_lock_ip : (a b : Text) → text_eq (l.fail_ip a) (m.lock_ip b) ≡ false
  fail_ip_lock_user : (a b : Text) → text_eq (l.fail_ip a) (m.lock_user b) ≡ false
  fail_user_lock_ip : (a b : Text) → text_eq (l.fail_user a) (m.lock_ip b) ≡ false
  fail_user_lock_user : (a b : Text) → text_eq (l.fail_user a) (m.lock_user b) ≡ false
  lock_ip_lock_ip : (a b : Text) → text_eq (l.lock_ip a) (m.lock_ip b) ≡ false
  lock_ip_lock_user : (a b : Text) → text_eq (l.lock_ip a) (m.lock_user b) ≡ false
  lock_user_lock_ip : (a b : Text) → text_eq (l.lock_user a) (m.lock_ip b) ≡ false
  lock_user_lock_user : (a b : Text) → text_eq (l.lock_user a) (m.lock_user b) ≡ false

portal_admin-IsApart : IsApart portal_limiter admin_limiter
unfolding text_eq
portal_admin-IsApart = record {
  fail_ip_lock_ip = λ a b. refl;
  fail_ip_lock_user = λ a b. refl;
  fail_user_lock_ip = λ a b. refl;
  fail_user_lock_user = λ a b. refl;
  lock_ip_lock_ip = λ a b. refl;
  lock_ip_lock_user = λ a b. refl;
  lock_user_lock_ip = λ a b. refl;
  lock_user_lock_user = λ a b. refl;
}

module _ (R : Redis) (lower : Text → Text) (l m : LoginLimiter) (sep : IsSeparated l)
    (apart : IsApart l m) where
  open R use {State, get}

  module _ (s : State) (ip username : Text)
      (h : IsCounting R lower l sep s ip (uname R lower l username)) (max_attempts lock_seconds : ℕ)
      (positive : 0 < lock_seconds) where
    abbrev recorded : State
    recorded = record_failure R lower l s ip username max_attempts lock_seconds

    other_lock_ip : (a : Text) → get recorded (m.lock_ip a) ≡ get s (m.lock_ip a)
    other_lock_ip a =
        let name = uname R lower l username in
        get-record_failure R lower l sep s ip username h max_attempts lock_seconds positive
          (m.lock_ip a)
        ∙ simp (apart.lock_user_lock_ip name a, apart.lock_ip_lock_ip ip a, and-false)
            (get-count_failure R lower l sep s ip username h (m.lock_ip a)
              ∙ simp (apart.fail_user_lock_ip name a, apart.fail_ip_lock_ip ip a))

    other_lock_user : (b : Text) → get recorded (m.lock_user b) ≡ get s (m.lock_user b)
    other_lock_user b =
        let name = uname R lower l username in
        get-record_failure R lower l sep s ip username h max_attempts lock_seconds positive
          (m.lock_user b)
        ∙ simp (apart.lock_user_lock_user name b, apart.lock_ip_lock_user ip b, and-false)
            (get-count_failure R lower l sep s ip username h (m.lock_user b)
              ∙ simp (apart.fail_user_lock_user name b, apart.fail_ip_lock_user ip b))

    other_unlocked :
        (a other : Text) → is_locked R lower m recorded a other ≡ is_locked R lower m s a other
    unfolding is_locked
    other_unlocked a other = rw (other_lock_ip a, other_lock_user (uname R lower m other)) refl

-- A failed login at the portal locks nobody out of the admin panel, and unlocks nobody. (The
-- portal's counters hold counts, and the lock has a time.)
pub record_failure-apart :
    (R : Redis) (lower : Text → Text) (s : R.State) (ip username : Text)
    (max_attempts lock_seconds : ℕ) (a other : Text)
    → IsCounting R lower portal_limiter portal-IsSeparated s ip
        (uname R lower portal_limiter username)
    → 0 < lock_seconds
    → is_locked R lower admin_limiter
        (record_failure R lower portal_limiter s ip username max_attempts lock_seconds)
        a
        other
      ≡ is_locked R lower admin_limiter s a other
record_failure-apart R lower s ip username max_attempts lock_seconds a other h positive =
    other_unlocked R lower portal_limiter admin_limiter portal-IsSeparated portal_admin-IsApart s ip
      username h max_attempts lock_seconds positive a other
