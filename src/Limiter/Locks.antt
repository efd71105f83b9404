-- ===== src/Limiter/Locks.antt =====
-- What a recorded failure counts, whom it locks, and how many failures lock.
use rdpproxy_v.Prelude.{
  ℕ, zero, suc, ◌+◌, ◌<◌, ◌≤◌, ◌≡◌, refl, sym, ap, ◌∙◌, Bool, true, false, ◌||◌, ◌&&◌, Option, some,
  is_some, ltb, if◌then◌else◌, arith,
}
use mathlib.Core.Path.{subst}
use mathlib.Core.Bool.{and-false}
use rdpproxy_v.Prelude.Text.{Text, text_eq, text_eq_refl}
use rdpproxy_v.Redis.{Redis}
use rdpproxy_v.Redis.Values.{Value, number, count_of, IsCount}
use rdpproxy_v.Limiter.{LoginLimiter, uname, is_locked, lock_if, count_failure, record_failure}
use rdpproxy_v.Limiter.Separated.{IsSeparated}

either_lock :
    (b c : Bool) (x y : Option Value)
    → (is_some (if b then some (number 1) else x) || is_some (if c then some (number 1) else y))
      ≡ ((is_some x || is_some y) || b || c)
either_lock b c x y = ground arith

module _ (R : Redis) (lower : Text → Text) (l : LoginLimiter) (sep : IsSeparated l) where
  open R use {State, get, setex, incr, expire, delete, get-setex, get-incr, get-expire, get-delete}

  -- The counters hold counts.
  pub record IsCounting (s : State) (ip name : Text) : Type 0 where
    pub by_ip : IsCount (get s (l.fail_ip ip))
    pub by_user : IsCount (get s (l.fail_user name))

  abbrev pub fails_ip : State → Text → ℕ
  fails_ip s ip = count_of (get s (l.fail_ip ip))

  abbrev pub fails_user : State → Text → ℕ
  fails_user s name = count_of (get s (l.fail_user name))

  module _ (s : State) (ip username : Text) (h : IsCounting s ip (uname R lower l username)) where
    abbrev pub name : Text
    name = uname R lower l username

    abbrev pub counted : State
    counted = count_failure R lower l s ip username

    user_before : get (incr s (l.fail_ip ip)) (l.fail_user name) ≡ get s (l.fail_user name)
    user_before =
        get-incr s (l.fail_ip ip) (l.fail_user name) h.by_ip ∙ (rw (sep.fail_ip_user ip name))

    -- After a failure the two counters are one higher, and no other key has changed.
    pub get-count_failure :
        (j : Text)
        → get counted j ≡ (
            if text_eq (l.fail_user name) j
            then some (number (suc (fails_user s name)))
            else if text_eq (l.fail_ip ip) j
            then some (number (suc (fails_ip s ip)))
            else get s j)
    unfolding count_failure
    get-count_failure j =
        get-expire _ (l.fail_user name) 60 j (omega arith)
        ∙ get-expire _ (l.fail_ip ip) 60 j (omega arith)
        ∙ get-incr (incr s (l.fail_ip ip)) (l.fail_user name) j
            (subst IsCount (sym user_before) h.by_user)
        ∙ (rw user_before (
            ap
              (λ (o : Option Value).
                if text_eq (l.fail_user name) j then some (number (suc (fails_user s name))) else o)
              (get-incr s (l.fail_ip ip) j h.by_ip)))

    ip_count : count_of (get (incr s (l.fail_ip ip)) (l.fail_ip ip)) ≡ suc (fails_ip s ip)
    ip_count =
        ap count_of (get-incr s (l.fail_ip ip) (l.fail_ip ip) h.by_ip)
        ∙ (rw (text_eq_refl (l.fail_ip ip)) refl)

    user_count :
        count_of (get (incr (incr s (l.fail_ip ip)) (l.fail_user name)) (l.fail_user name))
        ≡ suc (fails_user s name)
    user_count =
        ap count_of (
          get-incr (incr s (l.fail_ip ip)) (l.fail_user name) (l.fail_user name)
            (subst IsCount (sym user_before) h.by_user))
        ∙ (rw (text_eq_refl (l.fail_user name))
            (ap (λ (o : Option Value). suc (count_of o)) user_before))

    module _ (max_attempts lock_seconds : ℕ) (positive : 0 < lock_seconds) where
      get-lock_if :
          (b : Bool) (key : Text) (t : State) (j : Text)
          → get (lock_if R lower l b key lock_seconds t) j
            ≡ (if b && text_eq key j then some (number 1) else get t j)
      get-lock_if true key t j = get-setex t key lock_seconds (number 1) j positive
      get-lock_if false key t j = refl

      abbrev pub recorded : State
      recorded = record_failure R lower l s ip username max_attempts lock_seconds

      -- Every key after a failure: the locks that the counts call for, and the counters.
      pub get-record_failure :
          (j : Text)
          → get recorded j ≡ (
              if ltb max_attempts (suc (fails_user s name)) && text_eq (l.lock_user name) j
              then some (number 1)
              else if ltb max_attempts (suc (fails_ip s ip)) && text_eq (l.lock_ip ip) j
              then some (number 1)
              else get counted j)
      unfolding record_failure
      get-record_failure j =
          rw (ip_count, user_count)
            (get-lock_if _ (l.lock_user name) _ j
              ∙ ap
                  (λ (o : Option Value).
                    if ltb max_attempts (suc (fails_user s name)) && text_eq (l.lock_user name) j
                    then some (number 1)
                    else o)
                  (get-lock_if _ (l.lock_ip ip) counted j))

      get_fail_ip : get recorded (l.fail_ip ip) ≡ some (number (suc (fails_ip s ip)))
      get_fail_ip =
          get-record_failure (l.fail_ip ip)
          ∙ simp (sep.lock_user_fail_ip name ip, sep.lock_ip_fail_ip ip ip, and-false)
              (get-count_failure (l.fail_ip ip)
                ∙ simp (sep.fail_user_ip name ip, text_eq_refl (l.fail_ip ip)))

      get_fail_user : get recorded (l.fail_user name) ≡ some (number (suc (fails_user s name)))
      get_fail_user =
          get-record_failure (l.fail_user name)
          ∙ simp (sep.lock_user_fail_user name name, sep.lock_ip_fail_user ip name, and-false)
              (get-count_failure (l.fail_user name) ∙ simp (text_eq_refl (l.fail_user name)))

      record_failure-IsCounting : IsCounting recorded ip name
      record_failure-IsCounting = record {
        by_ip = subst IsCount (sym get_fail_ip) tt;
        by_user = subst IsCount (sym get_fail_user) tt;
      }

      get_lock_ip :
          (a : Text)
          → get recorded (l.lock_ip a) ≡ (
              if ltb max_attempts (suc (fails_ip s ip)) && text_eq ip a
              then some (number 1)
              else get s (l.lock_ip a))
      get_lock_ip a =
          get-record_failure (l.lock_ip a)
          ∙ simp (sep.lock_user_ip name a, sep.lock_ip_same ip a, and-false)
              (rw (get-count_failure (l.lock_ip a))
                (simp (sep.fail_user_lock_ip name a, sep.fail_ip_lock_ip ip a)))

      get_lock_user :
          (b : Text)
          → get recorded (l.lock_user b) ≡ (
              if ltb max_attempts (suc (fails_user s name)) && text_eq name b
              then some (number 1)
              else get s (l.lock_user b))
      get_lock_user b =
          get-record_failure (l.lock_user b)
          ∙ simp (sep.lock_ip_user ip b, sep.lock_user_same name b, and-false)
              (rw (get-count_failure (l.lock_user b))
                (simp (sep.fail_user_lock_user name b, sep.fail_ip_lock_user ip b)))

      -- A failed login counts once for its address and once for its user name. After it a login is
      -- locked exactly if it was before, or comes from that address and the address now has more
      -- than `max_attempts` failures, or names that user (as `uname` reads it) and the user has.
      -- (The counters hold counts, the four key patterns are apart, and the lock has a time.)
      pub record_failure_lem :
          (a other : Text)
          → (fails_ip recorded ip ≡ suc (fails_ip s ip))
            × (fails_user recorded name ≡ suc (fails_user s name))
            × (is_locked R lower l recorded a other ≡ (
                is_locked R lower l s a other
                || (ltb max_attempts (suc (fails_ip s ip)) && text_eq ip a)
                || (ltb max_attempts (suc (fails_user s name))
                    && text_eq name (uname R lower l other))))
      unfolding is_locked
      record_failure_lem a other = (
        ap count_of get_fail_ip,
        ap count_of get_fail_user,
        rw (get_lock_ip a, get_lock_user (uname R lower l other))
            (either_lock (ltb max_attempts (suc (fails_ip s ip)) && text_eq ip a)
              (ltb max_attempts (suc (fails_user s name)) && text_eq name (uname R lower l other))
              (get s (l.lock_ip a)) (get s (l.lock_user (uname R lower l other)))),
      )

over_ip :
    (x : Bool) (m c : ℕ) (b y : Bool) → m ≤ c → b ≡ true → (x || (ltb m (suc c) && b) || y) ≡ true
over_ip x m c b y h e = ground arith

over_user :
    (x y : Bool) (m c : ℕ) (b : Bool) → m ≤ c → b ≡ true → (x || y || (ltb m (suc c) && b)) ≡ true
over_user x y m c b h e = ground arith

-- Failures of one address and user name, one after the other within the life of the counters.
module _ (R : Redis) (lower : Text → Text) (l : LoginLimiter) (sep : IsSeparated l) where
  open R use {State}

  module _ (ip username : Text) (max_attempts lock_seconds : ℕ) (positive : 0 < lock_seconds) where
    unfoldable pub fail_times : ℕ → State → State
    fail_times zero s = s
    fail_times (suc n) s =
        record_failure R lower l (fail_times n s) ip username max_attempts lock_seconds

    abbrev Counts : ℕ → State → State → Type 0
    Counts n s t =
        IsCounting R lower l sep t ip (uname R lower l username)
        × (fails_ip R lower l sep t ip ≡ fails_ip R lower l sep s ip + n)
        × (fails_user R lower l sep t (uname R lower l username)
            ≡ fails_user R lower l sep s (uname R lower l username) + n)

    fail_times-Counts :
        (n : ℕ) (s : State)
        → IsCounting R lower l sep s ip (uname R lower l username)
        → Counts n s (fail_times n s)
    unfolding fail_times
    fail_times-Counts zero s h = (h, omega arith, omega arith)
    fail_times-Counts (suc n) s h =
        let (h', e, f) = fail_times-Counts n s h in
        let (count, count', _) =
          record_failure_lem R lower l sep (fail_times n s) ip username h' max_attempts lock_seconds
            positive ip username in
        (
          record_failure-IsCounting R lower l sep (fail_times n s) ip username h' max_attempts
              lock_seconds positive,
          omega (arith, count, e),
          omega (arith, count', f),
        )

    -- One failure more than the limit allows locks the address for every user name, and the user
    -- name from every address, whatever counts the counters held before. (The four key patterns are
    -- apart, and the lock has a time.)
    pub fail_times-locks :
        (s : State) (a other : Text)
        → IsCounting R lower l sep s ip (uname R lower l username)
        → (is_locked R lower l (fail_times (suc max_attempts) s) ip other ≡ true)
          × (is_locked R lower l (fail_times (suc max_attempts) s) a username ≡ true)
    unfolding fail_times
    fail_times-locks s a other h =
        let t = fail_times max_attempts s in
        let (h', e, f) = fail_times-Counts max_attempts s h in
        let lem =
          record_failure_lem R lower l sep t ip username h' max_attempts lock_seconds positive in
        (
          (lem ip other).2
              ∙ over_ip _ max_attempts (fails_ip R lower l sep t ip) _ _ (omega arith)
                  (text_eq_refl ip),
          (lem a username).2
              ∙ over_user (is_locked R lower l t a username)
                  (ltb max_attempts (suc (fails_ip R lower l sep t ip)) && text_eq ip a)
                  max_attempts (fails_user R lower l sep t (uname R lower l username)) _
                  (omega arith) (text_eq_refl (uname R lower l username)),
        )
