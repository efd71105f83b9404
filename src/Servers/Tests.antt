-- ===== src/Servers/Tests.antt =====
-- Two servers of a panel in the tests.
use rdpproxy_v.Prelude.{
  ℕ, ◌-◌, ◌≤◌, ◌≡◌, ◌≢◌, All, refl, arith, leb, ◌&&◌, if◌then◌else◌, true, false, Option, none,
  some, [], ◌∷◌, ◌++◌,
}
use rdpproxy_v.Prelude.Int.{pos}
use rdpproxy_v.Prelude.Text.{Text, codes}
use rdpproxy_v.Errors.{ok, err, other_error}
use rdpproxy_v.Admins.{answer}
use rdpproxy_v.Servers.{RdpServer, oversize, conflict}
use rdpproxy_v.Servers.Address.{split_address}
use rdpproxy_v.Servers.Address.Bounds.{IsPort, split_address-IsPort}
use rdpproxy_v.Servers.Rows.{IsSound}
use rdpproxy_v.Servers.Requests.{Servers, ServerUpdate, named, to_out}
use rdpproxy_v.Servers.Clone.{copy, clone_server, IsCopyOf, clone_server-IsCopyOf}
use rdpproxy_v.Servers.Clone.Twice.{clone_server_twice}
use rdpproxy_v.Servers.Sound.{clone, reorder, visibility, update, handle_all, handle_all-IsSound}

abbrev same : Text → Text
same t = t

abbrev digit : ℕ → Option ℕ
digit ch = if leb 48 ch && leb ch 57 then some (ch - 48) else none

abbrev farm : RdpServer
farm = record {
  id = codes "1";
  tech_name = codes "farm";
  display_name = codes "Farm";
  address = codes "10.0.0.5";
  port = 3389;
  is_enabled = true;
  sort_order = pos 0;
  group_bindings = codes "g" ∷ [];
}

abbrev lab : RdpServer
lab = record farm { id = codes "2"; tech_name = codes "lab"; group_bindings = [] }

abbrev rows : Servers
rows = farm ∷ lab ∷ []

abbrev new_id : ℕ → Text
new_id n = codes "n" ++ (n ∷ [])

split : split_address digit (codes " srv :3389") none ≡ answer (codes "srv", 3389)
unfolding split_address
split = refl

split_address-IsPort_example : IsPort 3389
split_address-IsPort_example =
    split_address-IsPort digit (codes " srv :3389") none (codes "srv") 3389 split

clean : conflict rows ≡ false
unfolding conflict
clean = refl

rows-IsSound : IsSound rows
rows-IsSound = (((omega arith, omega arith), ((omega arith, omega arith), tt)), clean)

abbrev moved : ServerUpdate
moved = record {
  tech_name = none;
  display_name = none;
  address = some (codes "10.0.0.9:3390");
  port = none;
  is_enabled = none;
  sort_order = none;
  groups = none;
}

handle_all-IsSound_example : IsSound (
    handle_all digit some
      (λ g. none)
      same
      (λ rs. [])
      none
      rows
      (update (codes "1") moved
        ∷ clone new_id (codes "1")
        ∷ visibility (codes "2") false
        ∷ reorder (codes "2" ∷ codes "1" ∷ [])
        ∷ []))
handle_all-IsSound_example =
    handle_all-IsSound digit some (λ g. none) same (λ rs. []) none
      (update (codes "1") moved
        ∷ clone new_id (codes "1")
        ∷ visibility (codes "2") false
        ∷ reorder (codes "2" ∷ codes "1" ∷ [])
        ∷ [])
      rows rows-IsSound

farm-named : named some rows (codes "1") ≡ answer farm
unfolding named
farm-named = refl

abbrev twin : RdpServer
twin = copy (new_id 1) 1 farm

cloned :
    clone_server (λ g. none) none new_id some rows (codes "1")
    ≡ (ok (answer (to_out (λ g. none) twin)), rows ++ (twin ∷ []))
unfolding clone_server
cloned = refl

unused : (attempt : ℕ) → All (λ (other : RdpServer). other.id ≢ new_id attempt) rows
unused attempt = (λ e. cc, (λ e. cc, tt))

clone_server-IsCopyOf_example :
    (src : RdpServer) × (attempt : ℕ) × (row : RdpServer) × (named some rows (codes "1")
      ≡ answer src)
    × (1 ≤ attempt)
    × (attempt ≤ 5)
    × (rows ++ (twin ∷ []) ≡ rows ++ (row ∷ []))
    × (to_out (λ g. none) twin ≡ to_out (λ g. none) row)
    × All (λ (other : RdpServer). other.id ≢ row.id) rows
    × IsCopyOf src attempt row
    × (oversize row ≡ false)
    × (conflict (rows ++ (twin ∷ [])) ≡ false)
clone_server-IsCopyOf_example =
    clone_server-IsCopyOf (λ g. none) none new_id some rows (rows ++ (twin ∷ [])) (codes "1")
      (to_out (λ g. none) twin) unused cloned

cloned_first :
    clone_server (λ g. none) (some other_error) new_id some rows (codes "1")
    ≡ (ok (answer (to_out (λ g. none) twin)), rows ++ (twin ∷ []))
unfolding clone_server
cloned_first = refl

clone_server_twice_example :
    clone_server (λ g. none) (some other_error) new_id some (rows ++ (twin ∷ [])) (codes "1")
    ≡ (err other_error, rows ++ (twin ∷ []))
clone_server_twice_example =
    clone_server_twice (λ g. none) other_error new_id new_id some rows (rows ++ (twin ∷ []))
      (codes "1") (to_out (λ g. none) twin) cloned_first
