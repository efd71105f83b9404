-- ===== src/Admins/Active.antt =====
-- Requests that come one after the other leave an active administrator.
use rdpproxy_v.Prelude.{
  ℕ, ◌+◌, ◌≤◌, ◌≡◌, refl, sym, Bool, true, false, ◌&&◌, ◌||◌, not, Option, none, some, List, [],
  ◌∷◌, leb, if◌then◌else◌, arith, Bool-cases, inl, inr,
}
use rdpproxy_v.Prelude.Text.{Text, text_eq}
use rdpproxy_v.Admins.{
  AdminUser, AdminUserCreate, AdminUserUpdate, Reply, answer, http_error, AdminUsers, active_count,
  find_user, or_else, apply_update, apply_reset, update_allowed, delete_allowed, named_user,
  update_check, update_admin_user, reset_admin_password, delete_row, delete_check,
  delete_admin_user, update_write, reset_write, delete_write, name_taken, create_admin_user,
}
use rdpproxy_v.Admins.Count.{
  active_count-change_user, active_count-delete_user, active_count-append,
}

update_arith :
    (o : Option Bool) (b own : Bool) (n n' : ℕ)
    → 1 ≤ n
    → not ((elim o [ some false ↦ true | _ ↦ false ]) && b && (own || leb n 1)) ≡ true
    → n' + (if b then 1 else 0) ≡ n + (if or_else o b then 1 else 0)
    → 1 ≤ n'
update_arith none b own n n' l h e = omega arith
update_arith (some true) b own n n' l h e = ground arith
update_arith (some false) b own n n' l h e = ground arith

delete_arith :
    (b : Bool) (n n' : ℕ)
    → 1 ≤ n
    → not (b && leb n 1) ≡ true
    → n' + (if b then 1 else 0) ≡ n
    → 1 ≤ n'
delete_arith b n n' l h e = ground arith

delete_row_active :
    (s : AdminUsers) (uid : Text)
    → 1 ≤ active_count s
    → 1 ≤ active_count (delete_write s (delete_row s uid)).1
unfolding delete_row delete_write
delete_row_active s uid l = at (find_user s uid) refl
  where
    at :
        (o : Option AdminUser)
        → find_user s uid ≡ o
        → 1
          ≤ active_count
              (delete_write s (elim o as (λ _. Reply Text) [
                | none ↦ http_error 404
                | some u ↦ if delete_allowed s u then answer uid else http_error 400
              ])).1
    at none e = l
    at (some u) e = elim (Bool-cases (delete_allowed s u)) [
      | inl h ↦ rw h (
          delete_arith u.is_active (active_count s) _ l (unfold delete_allowed in h)
            (active_count-delete_user s uid u e))
      | inr h ↦ rw h l
    ]

refused_active :
    (s : AdminUsers) (b : Bool) (r : Reply Text)
    → 1 ≤ active_count s
    → 1 ≤ active_count (delete_write s r).1
    → 1 ≤ active_count (delete_write s (if b then http_error 400 else r)).1
unfolding delete_write
refused_active s true r l h = l
refused_active s false r l h = h

module _ (parse_uuid : Text → Option Text) where
  named_user_found :
      (s : AdminUsers) (user_id uid : Text) (u : AdminUser)
      → named_user parse_uuid s user_id ≡ answer (uid, u)
      → find_user s uid ≡ some u
  unfolding named_user
  named_user_found s user_id uid u h = at (parse_uuid user_id) h
    where
      at_row :
          (uid' : Text) (o : Option AdminUser)
          → o ≡ find_user s uid'
          → (elim o as (λ _. Reply (Text × AdminUser)) [
            | none ↦ http_error 404
            | some v ↦ answer (uid', v)
          ])
            ≡ answer (uid, u)
          → find_user s uid ≡ some u
      at_row uid' none e h = cc
      at_row uid' (some v) e h = cc

      at :
          (o : Option Text)
          → (elim o as (λ _. Reply (Text × AdminUser)) [
            | none ↦ http_error 400
            | some uid' ↦ elim (find_user s uid') [
              | none ↦ http_error 404
              | some v ↦ answer (uid', v)
            ]
          ])
            ≡ answer (uid, u)
          → find_user s uid ≡ some u
      at none h = cc
      at (some uid') h = at_row uid' (find_user s uid') refl h

  pub update_check_found :
      (s : AdminUsers) (admin_id user_id : Text) (body : AdminUserUpdate) (uid : Text)
      (u : AdminUser)
      → update_check parse_uuid s admin_id user_id body ≡ answer (uid, u)
      → (find_user s uid ≡ some u) × (update_allowed s admin_id uid body u ≡ true)
  unfolding update_check
  update_check_found s admin_id user_id body uid u h = at (named_user parse_uuid s user_id) refl h
    where
      guarded :
          (b : Bool) (uid' : Text) (v : AdminUser)
          → b ≡ update_allowed s admin_id uid' body v
          → if◌then◌else◌ {A = Reply (Text × AdminUser)} b (answer (uid', v)) (http_error 400)
            ≡ answer (uid, u)
          → (uid' ≡ uid) × (v ≡ u) × (update_allowed s admin_id uid' body v ≡ true)
      guarded true uid' v e h = (cc, cc, sym e)
      guarded false uid' v e h = cc

      at :
          (r : Reply (Text × AdminUser))
          → named_user parse_uuid s user_id ≡ r
          → (elim r as (λ _. Reply (Text × AdminUser)) [
            | http_error code ↦ http_error code
            | answer (uid', v) ↦
                if update_allowed s admin_id uid' body v then answer (uid', v) else http_error 400
          ])
            ≡ answer (uid, u)
          → (find_user s uid ≡ some u) × (update_allowed s admin_id uid body u ≡ true)
      at (http_error code) e h = cc
      at (answer (uid', v)) e h =
          let (i, j, k) = guarded (update_allowed s admin_id uid' body v) uid' v refl h in
          (cc (named_user_found s user_id uid' v e, i, j), rw (sym i, sym j) k)

  -- An update of an account leaves an active administrator.
  update_admin_user_active :
      (s : AdminUsers) (admin_id user_id : Text) (body : AdminUserUpdate)
      → 1 ≤ active_count s
      → 1 ≤ active_count (update_admin_user parse_uuid s admin_id user_id body).1
  unfolding update_admin_user
  update_admin_user_active s admin_id user_id body l =
      at (update_check parse_uuid s admin_id user_id body) refl
    where
      at :
          (r : Reply (Text × AdminUser))
          → update_check parse_uuid s admin_id user_id body ≡ r
          → 1 ≤ active_count (update_write s body r).1
      at (http_error code) e = l
      at (answer (uid, u)) e =
          let (found, allowed) = update_check_found s admin_id user_id body uid u e in
          update_arith body.is_active u.is_active (text_eq uid admin_id) (active_count s) _ l
            (unfold update_allowed in allowed)
            (active_count-change_user s uid (apply_update body) u found)

  delete_admin_user_active :
      (s : AdminUsers) (admin_id user_id : Text)
      → 1 ≤ active_count s
      → 1 ≤ active_count (delete_admin_user parse_uuid s admin_id user_id).1
  unfolding delete_admin_user delete_check delete_write
  delete_admin_user_active s admin_id user_id l = at (parse_uuid user_id)
    where
      at :
          (o : Option Text)
          → 1
            ≤ active_count
                (delete_write s (elim o as (λ _. Reply Text) [
                  | none ↦ http_error 400
                  | some uid ↦ if text_eq uid admin_id then http_error 400 else delete_row s uid
                ])).1
      at none = l
      at (some uid) =
          refused_active s (text_eq uid admin_id) (delete_row s uid) l (delete_row_active s uid l)

  reset_admin_password_active :
      (hash_password : Text → Text) (s : AdminUsers) (user_id new_password : Text)
      → 1 ≤ active_count s
      → 1 ≤ active_count (reset_admin_password parse_uuid hash_password s user_id new_password).1
  unfolding reset_admin_password reset_write
  reset_admin_password_active hash_password s user_id new_password l =
      at (named_user parse_uuid s user_id) refl
    where
      at :
          (r : Reply (Text × AdminUser))
          → named_user parse_uuid s user_id ≡ r
          → 1 ≤ active_count (reset_write (hash_password new_password) s r).1
      at (http_error code) e = l
      at (answer (uid, u)) e =
          let kept =
            active_count-change_user s uid (apply_reset (hash_password new_password)) u
              (named_user_found s user_id uid u e) in
          omega (arith, kept, l)

-- The requests that change accounts, with the id of the administrator who makes them or, for a
-- new account, with the id that it gets.
pub data Request : Type 0 where
  creates : Text → AdminUserCreate → Request
  updates : Text → Text → AdminUserUpdate → Request
  resets : Text → Text → Request
  deletes : Text → Text → Request

module _ (parse_uuid : Text → Option Text) (lower sql_lower hash_password : Text → Text) where
  pub handle : AdminUsers → Request → AdminUsers
  unfolding create_admin_user update_admin_user reset_admin_password delete_admin_user
  handle s (creates new_id body) = (create_admin_user lower sql_lower new_id hash_password s body).1
  handle s (updates admin_id user_id body) =
      (update_admin_user parse_uuid s admin_id user_id body).1
  handle s (resets user_id new_password) =
      (reset_admin_password parse_uuid hash_password s user_id new_password).1
  handle s (deletes admin_id user_id) = (delete_admin_user parse_uuid s admin_id user_id).1

  pub handle_all : AdminUsers → List Request → AdminUsers
  unfolding handle
  handle_all s [] = s
  handle_all s (r ∷ rs) = handle_all (handle s r) rs

  create_admin_user_active :
      (new_id : Text) (s : AdminUsers) (body : AdminUserCreate)
      → 1 ≤ active_count s
      → 1 ≤ active_count (create_admin_user lower sql_lower new_id hash_password s body).1
  unfolding create_admin_user
  create_admin_user_active new_id s body l =
      elim (Bool-cases (name_taken lower sql_lower s body.username)) [
        | inl e ↦ rw e l
        | inr e ↦ rw e (omega (arith, active_count-append s _, l))
      ]

  handle_active :
      (s : AdminUsers) (r : Request) → 1 ≤ active_count s → 1 ≤ active_count (handle s r)
  unfolding handle
  handle_active s (creates new_id body) l = create_admin_user_active new_id s body l
  handle_active s (updates admin_id user_id body) l =
      update_admin_user_active parse_uuid s admin_id user_id body l
  handle_active s (resets user_id new_password) l =
      reset_admin_password_active parse_uuid hash_password s user_id new_password l
  handle_active s (deletes admin_id user_id) l =
      delete_admin_user_active parse_uuid s admin_id user_id l

  -- Where one administrator is active, then after any requests of any administrators, made one
  -- after the other, one is.
  pub active_count-handle_all :
      (rs : List Request) (s : AdminUsers) → 1 ≤ active_count s → 1 ≤ active_count (handle_all s rs)
  unfolding handle_all
  active_count-handle_all [] s l = l
  active_count-handle_all (r ∷ rs) s l =
      active_count-handle_all rs (handle s r) (handle_active s r l)
