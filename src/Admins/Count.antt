-- ===== src/Admins/Count.antt =====
-- How a written row changes the number of active accounts.
use rdpproxy_v.Prelude.{
  ℕ, ◌+◌, ◌≡◌, Bool, true, false, Option, some, [], ◌∷◌, ◌++◌, if◌then◌else◌, arith, Bool-cases,
  inl, inr,
}
use rdpproxy_v.Prelude.Text.{Text, text_eq}
use rdpproxy_v.Admins.{AdminUser, AdminUsers, active_count, find_user, change_user, delete_user}

-- 1 for an active account.
abbrev pub activity : AdminUser → ℕ
activity u = if u.is_active then 1 else 0

found_head :
    (v u : AdminUser) (o : Option AdminUser) (b : Bool)
    → b ≡ true
    → (if b then some v else o) ≡ some u
    → v ≡ u
found_head v u o true e h = cc
found_head v u o false e h = cc

found_tail :
    (v u : AdminUser) (o : Option AdminUser) (b : Bool)
    → b ≡ false
    → (if b then some v else o) ≡ some u
    → o ≡ some u
found_tail v u o false e h = h
found_tail v u o true e h = cc

-- A changed row: its activity goes out of the count, and that of the new row comes in.
pub active_count-change_user :
    (s : AdminUsers) (uid : Text) (f : AdminUser → AdminUser) (u : AdminUser)
    → find_user s uid ≡ some u
    → active_count (change_user s uid f) + activity u ≡ active_count s + activity (f u)
unfolding active_count change_user find_user
active_count-change_user [] uid f u h = cc
active_count-change_user (v ∷ s) uid f u h = elim (Bool-cases (text_eq v.id uid)) [
  | inl e ↦ rw (e, found_head v u (find_user s uid) (text_eq v.id uid) e h) (ground arith)
  | inr e ↦ rw e (
      ground (
        arith,
        active_count-change_user s uid f u
            (found_tail v u (find_user s uid) (text_eq v.id uid) e h),
      ))
]

pub active_count-delete_user :
    (s : AdminUsers) (uid : Text) (u : AdminUser)
    → find_user s uid ≡ some u
    → active_count (delete_user s uid) + activity u ≡ active_count s
unfolding active_count delete_user find_user
active_count-delete_user [] uid u h = cc
active_count-delete_user (v ∷ s) uid u h = elim (Bool-cases (text_eq v.id uid)) [
  | inl e ↦ rw (e, found_head v u (find_user s uid) (text_eq v.id uid) e h) (ground arith)
  | inr e ↦ rw e (
      ground (
        arith,
        active_count-delete_user s uid u (found_tail v u (find_user s uid) (text_eq v.id uid) e h),
      ))
]

pub active_count-append :
    (s : AdminUsers) (u : AdminUser) → active_count (s ++ (u ∷ [])) ≡ active_count s + activity u
unfolding active_count
active_count-append [] u = ground arith
active_count-append (v ∷ s) u = ground (arith, active_count-append s u)
