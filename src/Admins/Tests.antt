-- ===== src/Admins/Tests.antt =====
-- Two administrators, "1" and "2", whose ids stand for themselves.
use rdpproxy_v.Prelude.{◌≤◌, ◌≡◌, refl, arith, true, false, Option, none, some, [], ◌∷◌}
use rdpproxy_v.Prelude.Text.{Text, codes, text_eq}
use rdpproxy_v.Admins.{
  AdminUser, answer, AdminUsers, active_count, find_user, update_check, update_write,
}
use rdpproxy_v.Admins.Active.{updates, deletes, handle_all, active_count-handle_all}
use rdpproxy_v.Admins.Race.{off, update_write_race}

abbrev any_id : Text → Option Text
any_id t = some t

abbrev same : Text → Text
same t = t

abbrev admin : Text → AdminUser
admin id = record {
  id = id;
  username = id;
  password_hash = [];
  is_active = true;
  must_change_password = false;
  allowed_ips = [];
  last_login_at = none;
}

abbrev one : Text
one = codes "1"

abbrev two : Text
two = codes "2"

abbrev both : AdminUsers
both = admin one ∷ admin two ∷ []

both_active : active_count both ≡ 2
unfolding active_count
both_active = refl

one_active : 1 ≤ active_count both
unfolding active_count
one_active = omega arith

one_there : find_user both one ≡ some (admin one)
unfolding find_user text_eq
one_there = refl

two_there : find_user both two ≡ some (admin two)
unfolding find_user text_eq
two_there = refl

one_not_two : text_eq one two ≡ false
unfolding text_eq
one_not_two = refl

two_not_one : text_eq two one ≡ false
unfolding text_eq
two_not_one = refl

active_count-handle_all_example :
    1
    ≤ active_count
        (handle_all any_id same same same both (updates one two off ∷ deletes two one ∷ []))
active_count-handle_all_example =
    active_count-handle_all any_id same same same (updates one two off ∷ deletes two one ∷ []) both
      one_active

update_write_race_example :
    let of_a = update_check any_id both one two off in
    let of_b = update_check any_id both two one off in
    (of_a ≡ answer (two, admin two))
    × (of_b ≡ answer (one, admin one))
    × (active_count (update_write (update_write both off of_a).1 off of_b).1 ≡ 0)
update_write_race_example =
    update_write_race any_id both both_active one two one two (admin one) (admin two) refl refl
      one_there two_there refl refl one_not_two two_not_one
