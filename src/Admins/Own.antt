-- ===== src/Admins/Own.antt =====
-- What an administrator's own requests do to the own account.
use rdpproxy_v.Prelude.{
  ◌≡◌, refl, sym, ap, ◌∙◌, Bool, true, false, ◌&&◌, ◌||◌, not, Option, none, some, [], ◌∷◌, leb,
  if◌then◌else◌, Bool-cases, inl, inr,
}
use rdpproxy_v.Prelude.Text.{Text, text_eq, text_eq_sound}
use rdpproxy_v.Admins.{
  AdminUser, AdminUserUpdate, Reply, answer, http_error, AdminUsers, active_count, find_user,
  change_user, delete_user, or_else, apply_update, update_allowed, delete_row, update_check,
  update_admin_user, delete_admin_user, update_write, delete_write, delete_check, delete_allowed,
}
use rdpproxy_v.Admins.Active.{update_check_found}
use rdpproxy_v.Admins.Race.{find_user-change_user}

-- The account is there and active.
abbrev pub IsActiveIn : AdminUsers → Text → Type 0
IsActiveIn s me = (u : AdminUser) × (find_user s me ≡ some u) × (u.is_active ≡ true)

find_changed :
    (s : AdminUsers) (me : Text) (body : AdminUserUpdate) (u : AdminUser)
    → find_user s me ≡ some u
    → find_user (change_user s me (apply_update body)) me ≡ some (apply_update body u)
unfolding find_user change_user
find_changed [] me body u h = cc
find_changed (v ∷ s) me body u h = elim (Bool-cases (text_eq v.id me)) [
  | inl e ↦ rw e (rw e (ap (λ w. some (apply_update body w)) (same (text_eq v.id me) e h)))
  | inr e ↦ rw e (rw e (find_changed s me body u (tail (text_eq v.id me) e h)))
]
  where
    same : (b : Bool) → b ≡ true → (if b then some v else find_user s me) ≡ some u → v ≡ u
    same true e h = cc
    same false e h = cc

    tail :
        (b : Bool)
        → b ≡ false
        → (if b then some v else find_user s me) ≡ some u
        → find_user s me ≡ some u
    tail false e h = h
    tail true e h = cc

find_user-delete_user :
    (s : AdminUsers) (uid other : Text)
    → text_eq uid other ≡ false
    → find_user (delete_user s uid) other ≡ find_user s other
unfolding find_user delete_user
find_user-delete_user [] uid other ne = refl
find_user-delete_user (v ∷ s) uid other ne = elim (Bool-cases (text_eq v.id uid)) [
  | inl e ↦
      let apart : text_eq v.id other ≡ false =
        ap (λ t. text_eq t other) (text_eq_sound v.id uid e) ∙ ne in
      rw e (rw apart refl)
  | inr e ↦ rw e (rw (find_user-delete_user s uid other ne) refl)
]

stays_active :
    (o : Option Bool) (b last own : Bool)
    → not ((elim o [ some false ↦ true | _ ↦ false ]) && b && (own || last)) ≡ true
    → own ≡ true
    → b ≡ true
    → or_else o b ≡ true
stays_active none b last own h e i = i
stays_active (some true) b last own h e i = refl
stays_active (some false) true last true h e i = cc
stays_active (some false) false last own h e i = cc
stays_active (some false) true last false h e i = cc

module _ (parse_uuid : Text → Option Text) where
  update_keeps :
      (s : AdminUsers) (me user_id : Text) (body : AdminUserUpdate)
      → IsActiveIn s me
      → IsActiveIn (update_admin_user parse_uuid s me user_id body).1 me
  unfolding update_admin_user update_write
  update_keeps s me user_id body (u, there, active) =
      at (update_check parse_uuid s me user_id body) refl
    where
      row :
          (uid : Text) (w : AdminUser)
          → find_user s uid ≡ some w
          → update_allowed s me uid body w ≡ true
          → IsActiveIn (change_user s uid (apply_update body)) me
      row uid w found allowed = elim (Bool-cases (text_eq uid me)) [
        | inl e ↦
            let here : find_user s uid ≡ some u =
              ap (λ t. find_user s t) (text_eq_sound uid me e) ∙ there in
            let same : w ≡ u = cc (found, here) in
            (
              apply_update body u,
              ap (λ t. find_user (change_user s t (apply_update body)) me) (text_eq_sound uid me e)
                  ∙ find_changed s me body u there,
              stays_active body.is_active u.is_active (leb (active_count s) 1) (text_eq uid me)
                  (unfold update_allowed in
                    (ap (λ x. update_allowed s me uid body x) (sym same) ∙ allowed))
                  e active,
            )
        | inr e ↦ (u, find_user-change_user s uid me body e ∙ there, active)
      ]

      at :
          (r : Reply (Text × AdminUser))
          → update_check parse_uuid s me user_id body ≡ r
          → IsActiveIn (update_write s body r).1 me
      at (http_error code) e = (u, there, active)
      at (answer (uid, w)) e =
          let (found, allowed) = update_check_found parse_uuid s me user_id body uid w e in
          row uid w found allowed

  delete_keeps :
      (s : AdminUsers) (me user_id : Text)
      → IsActiveIn s me
      → IsActiveIn (delete_admin_user parse_uuid s me user_id).1 me
  unfolding delete_admin_user delete_check delete_write delete_row
  delete_keeps s me user_id (u, there, active) = at (parse_uuid user_id)
    where
      row :
          (uid : Text)
          → text_eq uid me ≡ false
          → (o : Option AdminUser)
          → IsActiveIn
              (delete_write s (elim o as (λ _. Reply Text) [
                | none ↦ http_error 404
                | some w ↦ if delete_allowed s w then answer uid else http_error 400
              ])).1
              me
      row uid ne none = (u, there, active)
      row uid ne (some w) = elim (Bool-cases (delete_allowed s w)) [
        | inl h ↦ rw h (u, find_user-delete_user s uid me ne ∙ there, active)
        | inr h ↦ rw h (u, there, active)
      ]

      guarded :
          (uid : Text) (b : Bool)
          → text_eq uid me ≡ b
          → IsActiveIn (delete_write s (if b then http_error 400 else delete_row s uid)).1 me
      guarded uid true e = (u, there, active)
      guarded uid false e = row uid e (find_user s uid)

      at :
          (o : Option Text)
          → IsActiveIn
              (delete_write s (elim o as (λ _. Reply Text) [
                | none ↦ http_error 400
                | some uid ↦ if text_eq uid me then http_error 400 else delete_row s uid
              ])).1
              me
      at none = (u, there, active)
      at (some uid) = guarded uid (text_eq uid me) refl

  -- Whatever account an active administrator updates or deletes, the own account is still there
  -- and active.
  pub own_account :
      (s : AdminUsers) (me user_id : Text) (body : AdminUserUpdate)
      → IsActiveIn s me
      → IsActiveIn (update_admin_user parse_uuid s me user_id body).1 me
        × IsActiveIn (delete_admin_user parse_uuid s me user_id).1 me
  own_account s me user_id body h = (update_keeps s me user_id body h, delete_keeps s me user_id h)
