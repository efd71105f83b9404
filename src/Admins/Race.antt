-- ===== src/Admins/Race.antt =====
-- Two requests whose checks both come before their writes.
use rdpproxy_v.Prelude.{
  ◌≡◌, refl, ap, ◌∙◌, Bool, true, false, ◌&&◌, not, Option, none, some, [], ◌∷◌, if◌then◌else◌,
  arith, Bool-cases, inl, inr,
}
use rdpproxy_v.Prelude.Text.{Text, text_eq, text_eq_sound}
use rdpproxy_v.Admins.{
  AdminUser, AdminUserUpdate, Reply, answer, AdminUsers, active_count, find_user, change_user,
  apply_update, update_allowed, named_user, update_check, update_write,
}
use rdpproxy_v.Admins.Count.{active_count-change_user}

-- A change of one row leaves the others.
pub find_user-change_user :
    (s : AdminUsers) (uid other : Text) (body : AdminUserUpdate)
    → text_eq uid other ≡ false
    → find_user (change_user s uid (apply_update body)) other ≡ find_user s other
unfolding find_user change_user
find_user-change_user [] uid other body ne = refl
find_user-change_user (v ∷ s) uid other body ne = elim (Bool-cases (text_eq v.id uid)) [
  | inl e ↦
      let apart : text_eq v.id other ≡ false =
        ap (λ t. text_eq t other) (text_eq_sound v.id uid e) ∙ ne in
      rw e (rw apart refl)
  | inr e ↦ rw e (rw (find_user-change_user s uid other body ne) refl)
]

-- The body that disables an account.
abbrev pub off : AdminUserUpdate
off = record { is_active = some false; allowed_ips = none }

open_guard :
    (b : Bool) (r refused : Reply (Text × AdminUser))
    → (if not (b && false) then r else refused) ≡ r
open_guard true r refused = refl
open_guard false r refused = refl

module _ (parse_uuid : Text → Option Text) (s : AdminUsers) (two : active_count s ≡ 2) where
  check_passes :
      (admin_id user_id uid : Text) (u : AdminUser)
      → parse_uuid user_id ≡ some uid
      → find_user s uid ≡ some u
      → text_eq uid admin_id ≡ false
      → update_check parse_uuid s admin_id user_id off ≡ answer (uid, u)
  unfolding update_check update_allowed named_user
  check_passes admin_id user_id uid u p f ne =
      rw (p, update_check, named_user)
        (rw (f, named_user) (rw (ne, two, update_allowed) (open_guard u.is_active _ _)))

  -- With exactly two active administrators, which have different ids, requests of each to disable the other both pass their checks
  -- on the same rows; when both have written, no administrator is active.
  pub update_write_race :
      (id_a id_b a b : Text) (u v : AdminUser)
      → parse_uuid id_a ≡ some a
      → parse_uuid id_b ≡ some b
      → find_user s a ≡ some u
      → find_user s b ≡ some v
      → u.is_active ≡ true
      → v.is_active ≡ true
      → text_eq a b ≡ false
      → text_eq b a ≡ false
      → let of_a = update_check parse_uuid s a id_b off in
        let of_b = update_check parse_uuid s b id_a off in
        (of_a ≡ answer (b, v))
        × (of_b ≡ answer (a, u))
        × (active_count (update_write (update_write s off of_a).1 off of_b).1 ≡ 0)
  unfolding update_write change_user
  update_write_race id_a id_b a b u v pa pb fa fb ua vb ab ba =
      let of_a = check_passes a id_b b v pb fb ba in
      let of_b = check_passes b id_a a u pa fa ab in
      (of_a, of_b, rw (of_a, of_b) (none_left a b u v fa fb ua vb ba))
    where
      none_left :
          (a b : Text) (u v : AdminUser)
          → find_user s a ≡ some u
          → find_user s b ≡ some v
          → u.is_active ≡ true
          → v.is_active ≡ true
          → text_eq b a ≡ false
          → active_count (change_user (change_user s b (apply_update off)) a (apply_update off)) ≡ 0
      none_left a b u v fa fb ua vb ba =
          let first = active_count-change_user s b (apply_update off) v fb in
          let second =
            active_count-change_user (change_user s b (apply_update off)) a (apply_update off) u
              (find_user-change_user s b a off ba ∙ fa) in
          ground (arith, first, second, two, ua, vb)
