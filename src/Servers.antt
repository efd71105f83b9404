-- ===== src/Servers.antt =====
-- The RDP servers: libs/db/models/server.py with its constraints here, and the requests of
-- services/admin/routes/servers.py in the children.
pub mod Address
pub mod Requests
pub mod Clone
pub mod Reorder
pub mod Rows
pub mod Ports
pub mod Sound
mod Tests
use rdpproxy_v.Prelude.{
  ℕ, Bool, true, false, ◌||◌, Option, none, some, List, [], ◌∷◌, length, ltb, if◌then◌else◌,
}
use rdpproxy_v.Prelude.Int.{ℤ}
use rdpproxy_v.Prelude.Text.{Text, text_eq}

-- A row with its group bindings; UUIDs are written as texts, the way that `str` writes them.
pub record RdpServer : Type 0 where
  pub id : Text
  pub tech_name : Text
  pub display_name : Text
  pub address : Text
  pub port : ℕ
  pub is_enabled : Bool
  pub sort_order : ℤ
  pub group_bindings : List Text

-- WHERE id = uid: the primary key.
unfoldable pub find_row : List RdpServer → Text → Option RdpServer
unfolding text_eq
find_row [] uid = none
find_row (s ∷ rows) uid = let rest = find_row rows uid in if text_eq s.id uid then some s else rest

-- What a commit writes to the row with this id, and a row that it deletes.
unfoldable pub change_row : List RdpServer → Text → (RdpServer → RdpServer) → List RdpServer
unfolding text_eq
change_row [] uid f = []
change_row (s ∷ rows) uid f =
    let rest = change_row rows uid f in if text_eq s.id uid then f s ∷ rows else s ∷ rest

unfoldable pub delete_row : List RdpServer → Text → List RdpServer
unfolding text_eq
delete_row [] uid = []
delete_row (s ∷ rows) uid =
    let rest = delete_row rows uid in if text_eq s.id uid then rows else s ∷ rest

unfoldable pub name_used : Text → List RdpServer → Bool
unfolding text_eq
name_used name [] = false
name_used name (s ∷ rows) = text_eq s.tech_name name || name_used name rows

unfoldable pub repeated : List Text → Bool
unfolding text_eq
repeated [] = false
repeated (g ∷ gs) = among g gs || repeated gs
  where
    among : Text → List Text → Bool
    among g [] = false
    among g (h ∷ hs) = text_eq h g || among g hs

-- unique=True of tech_name, and the bindings' primary key: some constraint does not hold.
unfoldable pub conflict : List RdpServer → Bool
unfolding name_used repeated
conflict [] = false
conflict (s ∷ rows) = name_used s.tech_name rows || (repeated s.group_bindings || conflict rows)

-- String(64) and String(255).
unfoldable pub oversize : RdpServer → Bool
oversize s =
    ltb 64 (length s.tech_name) || (ltb 255 (length s.display_name) || ltb 255 (length s.address))

pub data Commit : Type 0 where
  committed integrity_error data_error : Commit

-- The commit of a row that was written, by the table that it would give.
unfoldable pub commit : RdpServer → List RdpServer → Commit
unfolding oversize conflict
commit row after =
    if oversize row then data_error else if conflict after then integrity_error else committed
