-- ===== src/Limiter/Separated.antt =====
-- The keys of the limiters: of different patterns, they are different keys.
use rdpproxy_v.Prelude.{◌≡◌, refl, false}
use rdpproxy_v.Prelude.Text.{Text, text_eq}
use rdpproxy_v.Limiter.{LoginLimiter, portal_limiter, admin_limiter}

-- The four patterns never give the same key, and a lock's key determines whom it locks.
pub record IsSeparated (l : LoginLimiter) : Type 0 where
  pub fail_ip_user : (a b : Text) → text_eq (l.fail_ip a) (l.fail_user b) ≡ false
  pub fail_user_ip : (a b : Text) → text_eq (l.fail_user a) (l.fail_ip b) ≡ false
  pub fail_ip_lock_ip : (a b : Text) → text_eq (l.fail_ip a) (l.lock_ip b) ≡ false
  pub fail_ip_lock_user : (a b : Text) → text_eq (l.fail_ip a) (l.lock_user b) ≡ false
  pub fail_user_lock_ip : (a b : Text) → text_eq (l.fail_user a) (l.lock_ip b) ≡ false
  pub fail_user_lock_user : (a b : Text) → text_eq (l.fail_user a) (l.lock_user b) ≡ false
  pub lock_ip_user : (a b : Text) → text_eq (l.lock_ip a) (l.lock_user b) ≡ false
  pub lock_user_ip : (a b : Text) → text_eq (l.lock_user a) (l.lock_ip b) ≡ false
  pub lock_ip_fail_ip : (a b : Text) → text_eq (l.lock_ip a) (l.fail_ip b) ≡ false
  pub lock_ip_fail_user : (a b : Text) → text_eq (l.lock_ip a) (l.fail_user b) ≡ false
  pub lock_user_fail_ip : (a b : Text) → text_eq (l.lock_user a) (l.fail_ip b) ≡ false
  pub lock_user_fail_user : (a b : Text) → text_eq (l.lock_user a) (l.fail_user b) ≡ false
  pub lock_ip_same : (a b : Text) → text_eq (l.lock_ip a) (l.lock_ip b) ≡ text_eq a b
  pub lock_user_same : (a b : Text) → text_eq (l.lock_user a) (l.lock_user b) ≡ text_eq a b

pub portal-IsSeparated : IsSeparated portal_limiter
unfolding text_eq
portal-IsSeparated = record {
  fail_ip_user = λ a b. refl;
  fail_user_ip = λ a b. refl;
  fail_ip_lock_ip = λ a b. refl;
  fail_ip_lock_user = λ a b. refl;
  fail_user_lock_ip = λ a b. refl;
  fail_user_lock_user = λ a b. refl;
  lock_ip_user = λ a b. refl;
  lock_user_ip = λ a b. refl;
  lock_ip_fail_ip = λ a b. refl;
  lock_ip_fail_user = λ a b. refl;
  lock_user_fail_ip = λ a b. refl;
  lock_user_fail_user = λ a b. refl;
  lock_ip_same = λ a b. refl;
  lock_user_same = λ a b. refl;
}

pub admin-IsSeparated : IsSeparated admin_limiter
unfolding text_eq
admin-IsSeparated = record {
  fail_ip_user = λ a b. refl;
  fail_user_ip = λ a b. refl;
  fail_ip_lock_ip = λ a b. refl;
  fail_ip_lock_user = λ a b. refl;
  fail_user_lock_ip = λ a b. refl;
  fail_user_lock_user = λ a b. refl;
  lock_ip_user = λ a b. refl;
  lock_user_ip = λ a b. refl;
  lock_ip_fail_ip = λ a b. refl;
  lock_ip_fail_user = λ a b. refl;
  lock_user_fail_ip = λ a b. refl;
  lock_user_fail_user = λ a b. refl;
  lock_ip_same = λ a b. refl;
  lock_user_same = λ a b. refl;
}
