-- ===== src/Panel/Password.antt =====
-- services/admin/routes/auth.py: what `change_password_submit` leaves of an account.
use rdpproxy_v.Prelude.{
  ℕ, ◌≤◌, ◌≡◌, refl, sym, ap, ◌∙◌, inl, inr, Bool, true, false, ◌||◌, not, Option, none, some, [],
  ◌∷◌, length, ltb, Bool-cases, if◌then◌else◌, arith,
}
use rdpproxy_v.Prelude.Text.{Text, text_eq, text_eq_sound, non_empty}
use rdpproxy_v.Errors.{Result, ok, err, map_result}
use rdpproxy_v.Crypto.{Crypto}
use rdpproxy_v.Redis.{Redis}
use rdpproxy_v.Sessions.{Ttls, AdminWebSessionData, update_admin_must_change}
use rdpproxy_v.Admins.{AdminUser, AdminUsers, find_user, change_user}
use rdpproxy_v.Panel.{
  Request, AdminConfig, Verification, verified, mismatched, raised, verify_password,
}
use rdpproxy_v.Panel.Entry.{same_token}
use rdpproxy_v.Panel.Forms.{
  Page, form, redirect, csrf_ok, accepts, right_password, changed, change_password_submit,
}

-- The row of an id after a change of it that keeps the id.
find_user-changed :
    (us : AdminUsers) (uid : Text) (f : AdminUser → AdminUser) (user : AdminUser)
    → ((u : AdminUser) → (f u).id ≡ u.id)
    → find_user us uid ≡ some user
    → find_user (change_user us uid f) uid ≡ some (f user)
unfolding find_user change_user
find_user-changed [] uid f user keeps h = cc
find_user-changed (u ∷ us) uid f user keeps h = elim (Bool-cases (text_eq u.id uid)) [
  | inl e ↦
      let same : u ≡ user =
        cc (sym (ap (λ (b : Bool). if b then some u else find_user us uid) e) ∙ h) in
      let hit : text_eq (f u).id uid ≡ true = ap (λ (i : Text). text_eq i uid) (keeps u) ∙ e in
      rw (e, hit) (ap (λ (x : AdminUser). some (f x)) same)
  | inr e ↦
      rw (e, e)
        (find_user-changed us uid f user keeps
          (sym (ap (λ (b : Bool). if b then some u else find_user us uid) e) ∙ h))
]

long_enough : (n : ℕ) → ltb n 8 ≡ false → 8 ≤ n
long_enough n h = ground arith

same_text : (a b : Text) → not (text_eq a b) ≡ false → a ≡ b
same_text a b h = text_eq_sound a b (ground arith)

right_verified :
    (verify : Text → Text → Verification) (user : AdminUser) (password : Text)
    → right_password verify (some user) password ≡ ok true
    → verify user.password_hash password ≡ verified
unfolding right_password verify_password
right_verified verify user password h = at (verify user.password_hash password) refl h
  where
    at :
        (v : Verification)
        → verify user.password_hash password ≡ v
        → elim v as (λ _. Result Bool) [
          | verified ↦ ok true
          | mismatched ↦ ok false
          | raised e ↦ err e
        ]
          ≡ ok true
        → verify user.password_hash password ≡ verified
    at verified e h = e
    at mismatched e h = cc
    at (raised x) e h = cc

accepts_active :
    (verify : Text → Text → Verification) (user : AdminUser) (password : Text)
    → verify user.password_hash password ≡ verified
    → accepts verify (some user) password ≡ ok (if user.is_active then some user else none)
unfolding accepts verify_password
accepts_active verify user password h =
    by_activity user.is_active (verify_password verify user.password_hash password)
      (rw (verify_password, h) refl)
  where
    by_activity :
        (active : Bool) (right : Result Bool)
        → right ≡ ok true
        → (if not active
            then ok none
            else map_result (λ (b : Bool). if b then some user else none) right)
          ≡ ok (if active then some user else none)
    by_activity true right e = ap (map_result (λ (b : Bool). if b then some user else none)) e
    by_activity false right e = refl

-- The account with another hash, of a password that need not be changed.
abbrev pub renewed : Text → AdminUser → AdminUser
renewed password_hash u = record u { password_hash = password_hash; must_change_password = false }

module _ (R : Redis) (c : Crypto) (ttls : Ttls) (lower sql_lower : Text → Text)
    (verify : Text → Text → Verification) (hash : Text → Text) (cfg : AdminConfig)
    (session : AdminWebSessionData) where
  open R use {State}

  changed_redirect :
      (new_password : Text) (o : Option AdminUser) (right : Result Bool) (s s' : State)
      (us us' : AdminUsers)
      → changed R c ttls lower sql_lower verify hash cfg session new_password o right (s, us)
        ≡ (ok (redirect false none), (s', us'))
      → (user : AdminUser) × (o ≡ some user)
        × (right ≡ ok true)
        × (change_user us session.admin_user_id (renewed (hash new_password)) ≡ us')
  unfolding changed
  changed_redirect new_password none right s s' us us' h = cc
  changed_redirect new_password (some user) (err e) s s' us us' h = cc
  changed_redirect new_password (some user) (ok false) s s' us us' h = cc
  changed_redirect new_password (some user) (ok true) s s' us us' h =
      (user, refl, refl, at (update_admin_must_change R c ttls s session.session_id false) h)
    where
      at :
          (o : Result State)
          → elim o as (λ _. Result Page × (State × AdminUsers)) [
            | ok t ↦ (
              ok (redirect false none),
              (t, change_user us session.admin_user_id (renewed (hash new_password))),
            )
            | err e ↦
                (err e, (s, change_user us session.admin_user_id (renewed (hash new_password))))
          ]
            ≡ (ok (redirect false none), (s', us'))
          → change_user us session.admin_user_id (renewed (hash new_password)) ≡ us'
      at (ok t) h = ap (λ (x : Result Page × (State × AdminUsers)). x.1.1) h
      at (err e) h = cc

  -- A change of the password that redirects had a form token that is the cookie's and not empty,
  -- the new password twice, of at least 8 characters, and the account of the session, whose hash argon2
  -- verified with the current password. Afterwards the account need not change its password, and
  -- its login form takes the new one exactly if the account is active. (argon2 verifies the hash
  -- of a password with that password.)
  pub change_password_submit-accepts :
      (r : Request) (current_password new_password new_password2 csrf_token : Text) (s s' : State)
      (us us' : AdminUsers)
      → ((p : Text) → verify (hash p) p ≡ verified)
      → change_password_submit R c ttls lower sql_lower verify hash cfg session r current_password
          new_password new_password2 csrf_token
          (s, us)
        ≡ (ok (redirect false none), (s', us'))
      → (r.cookie_csrf ≡ some csrf_token)
        × (non_empty csrf_token ≡ true)
        × (new_password ≡ new_password2)
        × (8 ≤ length new_password)
        × ((user : AdminUser) × (find_user us session.admin_user_id ≡ some user)
            × (verify user.password_hash current_password ≡ verified)
            × (find_user us' session.admin_user_id ≡ some (renewed (hash new_password) user))
            × (accepts verify (find_user us' session.admin_user_id) new_password
                ≡ ok (if user.is_active then some (renewed (hash new_password) user) else none)))
  unfolding change_password_submit
  change_password_submit-accepts r current_password new_password new_password2 csrf_token s s' us
        us' hashes h =
      passed (csrf_ok r csrf_token) (not (text_eq new_password new_password2))
        (ltb (length new_password) 8) refl refl refl h
    where
      after :
          changed R c ttls lower sql_lower verify hash cfg session new_password
              (find_user us session.admin_user_id)
              (right_password verify (find_user us session.admin_user_id) current_password)
              (s, us)
            ≡ (ok (redirect false none), (s', us'))
          → (user : AdminUser) × (find_user us session.admin_user_id ≡ some user)
            × (verify user.password_hash current_password ≡ verified)
            × (find_user us' session.admin_user_id ≡ some (renewed (hash new_password) user))
            × (accepts verify (find_user us' session.admin_user_id) new_password
                ≡ ok (if user.is_active then some (renewed (hash new_password) user) else none))
      after h =
          let (user, row, right, written) =
            changed_redirect new_password (find_user us session.admin_user_id)
              (right_password verify (find_user us session.admin_user_id) current_password) s s' us
              us' h in
          let now_ : find_user us' session.admin_user_id ≡ some (renewed (hash new_password) user) =
            ap (λ t. find_user t session.admin_user_id) (sym written)
            ∙ find_user-changed us session.admin_user_id (renewed (hash new_password)) user
                (λ u. refl) row in
          (
            user,
            row,
            right_verified verify user current_password
                (ap (λ o. right_password verify o current_password) (sym row) ∙ right),
            now_,
            ap (λ o. accepts verify o new_password) now_
                ∙ accepts_active verify (renewed (hash new_password) user) new_password
                    (hashes new_password),
          )

      passed :
          (valid unequal short : Bool)
          → csrf_ok r csrf_token ≡ valid
          → not (text_eq new_password new_password2) ≡ unequal
          → ltb (length new_password) 8 ≡ short
          → (if not valid || (unequal || short)
              then (ok (form 400), (s, us))
              else changed R c ttls lower sql_lower verify hash cfg session new_password
                  (find_user us session.admin_user_id)
                  (right_password verify (find_user us session.admin_user_id) current_password)
                  (s, us))
            ≡ (ok (redirect false none), (s', us'))
          → (r.cookie_csrf ≡ some csrf_token)
            × (non_empty csrf_token ≡ true)
            × (new_password ≡ new_password2)
            × (8 ≤ length new_password)
            × ((user : AdminUser) × (find_user us session.admin_user_id ≡ some user)
                × (verify user.password_hash current_password ≡ verified)
                × (find_user us' session.admin_user_id ≡ some (renewed (hash new_password) user))
                × (accepts verify (find_user us' session.admin_user_id) new_password
                    ≡ ok
                        (if user.is_active then some (renewed (hash new_password) user) else none)))
      passed true false false d e f h =
          let (token_, some_token) = same_token r csrf_token d in
          (
            token_,
            some_token,
            same_text new_password new_password2 e,
            long_enough (length new_password) f,
            after h,
          )
      passed false unequal short d e f h = cc
      passed true true short d e f h = cc
      passed true false true d e f h = cc
