-- ===== src/Admins.antt =====
-- services/admin/routes/admin_users.py: the administrators' accounts, rows of the database, and
-- the requests that change them. The UUIDs, the hash, IP networks and lower case are Python's
-- and the database's, parameters here. A request is a check that reads the rows and a write.
pub mod Count
pub mod Active
pub mod Own
pub mod Race
mod Tests
use rdpproxy_v.Prelude.{
  ℕ, suc, Bool, true, false, ◌&&◌, ◌||◌, not, Option, none, some, List, [], ◌∷◌, ◌++◌, length, map,
  ltb, leb, if◌then◌else◌,
}
use rdpproxy_v.Prelude.Text.{Text, text_eq}
use rdpproxy_v.Search.{strip}

-- libs/db/models/admin_user.py
pub record AdminUser : Type 0 where
  pub id : Text
  pub username : Text
  pub password_hash : Text
  pub is_active : Bool
  pub must_change_password : Bool
  pub allowed_ips : List Text
  pub last_login_at : Option Text

pub record AdminUserOut : Type 0 where
  pub id : Text
  pub username : Text
  pub is_active : Bool
  pub must_change_password : Bool
  pub allowed_ips : List Text
  pub last_login_at : Option Text

pub record AdminUserCreate : Type 0 where
  pub username : Text
  pub password : Text
  pub is_active : Bool
  pub allowed_ips : List Text

pub record AdminUserUpdate : Type 0 where
  pub is_active : Option Bool
  pub allowed_ips : Option (List Text)

-- HTTPException carries a status code.
pub data Reply (A : Type 0) : Type 0 where
  answer : A → Reply A
  http_error : ℕ → Reply A

abbrev pub AdminUsers : Type 0
AdminUsers = List AdminUser

abbrev pub to_out : AdminUser → AdminUserOut
to_out u = record {
  id = u.id;
  username = u.username;
  is_active = u.is_active;
  must_change_password = u.must_change_password;
  allowed_ips = u.allowed_ips;
  last_login_at = u.last_login_at;
}

-- select(count(AdminUser.id)).where(AdminUser.is_active)
unfoldable pub active_count : AdminUsers → ℕ
active_count [] = 0
active_count (u ∷ us) = let rest = active_count us in if u.is_active then suc rest else rest

-- session.get(AdminUser, uid): the id is the primary key.
unfoldable pub find_user : AdminUsers → Text → Option AdminUser
find_user [] uid = none
find_user (u ∷ us) uid = let rest = find_user us uid in if text_eq u.id uid then some u else rest

-- What a commit writes to the row with this id, and a row that it deletes.
unfoldable pub change_user : AdminUsers → Text → (AdminUser → AdminUser) → AdminUsers
change_user [] uid f = []
change_user (u ∷ us) uid f =
    let rest = change_user us uid f in if text_eq u.id uid then f u ∷ us else u ∷ rest

unfoldable pub delete_user : AdminUsers → Text → AdminUsers
delete_user [] uid = []
delete_user (u ∷ us) uid =
    let rest = delete_user us uid in if text_eq u.id uid then us else u ∷ rest

abbrev pub disables : AdminUserUpdate → Bool
disables body = elim body.is_active [ some false ↦ true | _ ↦ false ]

abbrev pub or_else {ℓ} : {A : Type ℓ} → Option A → A → A
or_else none a = a
or_else (some b) a = b

abbrev pub apply_update : AdminUserUpdate → AdminUser → AdminUser
apply_update body u = record u {
  is_active = or_else body.is_active u.is_active;
  allowed_ips = or_else body.allowed_ips u.allowed_ips;
}

abbrev pub apply_reset : Text → AdminUser → AdminUser
apply_reset hash u = record u { password_hash = hash; must_change_password = true }

-- The guards that an account which is active passes before it is disabled or deleted.
abbrev pub last_active : AdminUsers → Bool
last_active s = leb (active_count s) 1

unfoldable pub update_allowed : AdminUsers → Text → Text → AdminUserUpdate → AdminUser → Bool
unfolding active_count text_eq
update_allowed s admin_id uid body u =
    not (disables body && u.is_active && (text_eq uid admin_id || last_active s))

unfoldable pub delete_allowed : AdminUsers → AdminUser → Bool
unfolding active_count
delete_allowed s u = not (u.is_active && last_active s)

unfoldable pub delete_row : AdminUsers → Text → Reply Text
unfolding find_user delete_allowed
delete_row s uid = elim (find_user s uid) [
  | none ↦ http_error 404
  | some u ↦ if delete_allowed s u then answer uid else http_error 400
]

-- The writes, where the checks let them through.
unfoldable pub update_write :
    AdminUsers → AdminUserUpdate → Reply (Text × AdminUser) → Reply AdminUserOut × AdminUsers
unfolding change_user
update_write s body (http_error code) = (http_error code, s)
update_write s body (answer (uid, u)) =
    (answer (to_out (apply_update body u)), change_user s uid (apply_update body))

unfoldable pub reset_write :
    (hash : Text) → AdminUsers → Reply (Text × AdminUser) → Reply (Unit {0}) × AdminUsers
unfolding change_user
reset_write hash s (http_error code) = (http_error code, s)
reset_write hash s (answer (uid, u)) = (answer tt, change_user s uid (apply_reset hash))

unfoldable pub delete_write : AdminUsers → Reply Text → Reply (Unit {0}) × AdminUsers
unfolding delete_user
delete_write s (http_error code) = (http_error code, s)
delete_write s (answer uid) = (answer tt, delete_user s uid)

module _ (parse_uuid : Text → Option Text) where
  -- The row that a request names: 400 for an id that is no UUID, 404 for one that is not there.
  unfoldable pub named_user : AdminUsers → Text → Reply (Text × AdminUser)
  unfolding find_user
  named_user s user_id = elim (parse_uuid user_id) [
    | none ↦ http_error 400
    | some uid ↦ elim (find_user s uid) [ none ↦ http_error 404 | some u ↦ answer (uid, u) ]
  ]

  unfoldable pub update_check :
      AdminUsers → Text → Text → AdminUserUpdate → Reply (Text × AdminUser)
  unfolding named_user update_allowed
  update_check s admin_id user_id body = elim (named_user s user_id) [
    | http_error code ↦ http_error code
    | answer (uid, u) ↦
        if update_allowed s admin_id uid body u then answer (uid, u) else http_error 400
  ]

  unfoldable pub update_admin_user :
      AdminUsers → Text → Text → AdminUserUpdate → Reply AdminUserOut × AdminUsers
  unfolding update_check update_write
  update_admin_user s admin_id user_id body =
      update_write s body (update_check s admin_id user_id body)

  unfoldable pub reset_admin_password :
      (hash_password : Text → Text) → AdminUsers → Text → Text → Reply (Unit {0}) × AdminUsers
  unfolding named_user reset_write
  reset_admin_password hash_password s user_id new_password =
      reset_write (hash_password new_password) s (named_user s user_id)

  -- An administrator's own id is refused before the row is looked up.
  unfoldable pub delete_check : AdminUsers → Text → Text → Reply Text
  unfolding delete_row text_eq
  delete_check s admin_id user_id = elim (parse_uuid user_id) [
    | none ↦ http_error 400
    | some uid ↦ if text_eq uid admin_id then http_error 400 else delete_row s uid
  ]

  unfoldable pub delete_admin_user : AdminUsers → Text → Text → Reply (Unit {0}) × AdminUsers
  unfolding delete_check delete_write
  delete_admin_user s admin_id user_id = delete_write s (delete_check s admin_id user_id)

-- `lower` is Python's, `sql_lower` the database's.
module _ (lower sql_lower : Text → Text) where
  unfoldable pub name_taken : AdminUsers → Text → Bool
  unfolding text_eq strip
  name_taken [] username = false
  name_taken (u ∷ us) username =
      text_eq (sql_lower u.username) (lower (strip username)) || name_taken us username

  -- The new row comes last; the order of the rows is the database's.
  unfoldable pub create_admin_user :
      (new_id : Text) (hash_password : Text → Text)
      → AdminUsers
      → AdminUserCreate
      → Reply AdminUserOut × AdminUsers
  unfolding name_taken strip
  create_admin_user new_id hash_password s body =
      let u : AdminUser = record {
        id = new_id;
        username = strip body.username;
        password_hash = hash_password body.password;
        is_active = body.is_active;
        must_change_password = false;
        allowed_ips = body.allowed_ips;
        last_login_at = none;
      } in
      if name_taken s body.username then (http_error 409, s) else (answer (to_out u), s ++ (u ∷ []))
