-- ===== src/Limiter.antt =====
-- libs/security/login_limiter.py: failed logins are counted by address and by user name, and
-- locks are set when a count passes the limit. `str.lower` is Python's.
pub mod Locks
pub mod Separated
pub mod Namespaces
mod Tests
use rdpproxy_v.Prelude.{ℕ, Bool, ◌||◌, is_some, ltb, if◌then◌else◌, some, ◌≡◌, false}
use rdpproxy_v.Prelude.Text.{Text, codes, or_text, text_eq}
use rdpproxy_v.Search.{strip}
use rdpproxy_v.Redis.{Redis}
use rdpproxy_v.Redis.Values.{number, count_of}
use rdpproxy_v.Redis.Keys

-- The four patterns of a limiter, as functions of their argument.
pub record LoginLimiter : Type 0 where
  pub fail_ip : Text → Text
  pub fail_user : Text → Text
  pub lock_ip : Text → Text
  pub lock_user : Text → Text

abbrev pub portal_limiter : LoginLimiter
portal_limiter = record {
  fail_ip = Keys.portal_fail_ip;
  fail_user = Keys.portal_fail_user;
  lock_ip = Keys.portal_lock_ip;
  lock_user = Keys.portal_lock_user;
}

abbrev pub admin_limiter : LoginLimiter
admin_limiter = record {
  fail_ip = Keys.admin_fail_ip;
  fail_user = Keys.admin_fail_user;
  lock_ip = Keys.admin_lock_ip;
  lock_user = Keys.admin_lock_user;
}

module _ (R : Redis) (lower : Text → Text) (l : LoginLimiter) where
  open R use {State, get, setex, delete, incr, expire}

  -- username.strip().lower() or "_"
  abbrev pub uname : Text → Text
  uname username = or_text (lower (strip username)) (codes "_")

  unfoldable pub is_locked : State → Text → Text → Bool
  is_locked s ip username =
      is_some (get s (l.lock_ip ip)) || is_some (get s (l.lock_user (uname username)))

  -- `setex(key, lock_seconds, "1")` if the count passes the limit.
  abbrev pub lock_if : Bool → Text → ℕ → State → State
  lock_if b key lock_seconds s = if b then setex s key lock_seconds (number 1) else s

  -- The two counters go up, and both are given another minute.
  unfoldable pub count_failure : State → Text → Text → State
  count_failure s ip username =
      let s = incr s (l.fail_ip ip) in
      let s = incr s (l.fail_user (uname username)) in
      let s = expire s (l.fail_ip ip) Keys.fail_counter_ttl in
      expire s (l.fail_user (uname username)) Keys.fail_counter_ttl

  unfoldable pub record_failure : State → Text → Text → ℕ → ℕ → State
  unfolding count_failure
  record_failure s ip username max_attempts lock_seconds =
      let ip_count = count_of (get (incr s (l.fail_ip ip)) (l.fail_ip ip)) in
      let user_count = count_of (
        get (incr (incr s (l.fail_ip ip)) (l.fail_user (uname username)))
          (l.fail_user (uname username))) in
      let s = count_failure s ip username in
      let s = lock_if (ltb max_attempts ip_count) (l.lock_ip ip) lock_seconds s in
      lock_if (ltb max_attempts user_count) (l.lock_user (uname username)) lock_seconds s

  unfoldable pub clear : State → Text → Text → State
  clear s ip username = delete (delete s (l.fail_ip ip)) (l.fail_user (uname username))
