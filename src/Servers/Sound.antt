-- ===== src/Servers/Sound.antt =====
-- services/admin/routes/servers.py: what the table of the servers keeps, whatever requests come.

use rdpproxy_v.Prelude.{
  ℕ, zero, suc, ◌≡◌, refl, ◌∙◌, inl, inr, Bool, true, false, Option, none, some, List, [], ◌∷◌,
  ◌++◌, map, Bool-cases, if◌then◌else◌,
}
use rdpproxy_v.Prelude.Text.{Text, text_eq}
use rdpproxy_v.Errors.{Error, ok}
use rdpproxy_v.Search.{strip}
use rdpproxy_v.Admins.{Reply, answer, http_error}
use rdpproxy_v.Servers.{
  RdpServer, change_row, delete_row, conflict, oversize, Commit, committed, integrity_error,
  data_error, commit,
}
use rdpproxy_v.Servers.Address.Bounds.{IsPort}
use rdpproxy_v.Servers.Rows.{
  HavePorts, IsSound, KeepsKeys, named-IsPort, append-HavePorts, change_row-HavePorts,
  delete_row-HavePorts, conflict-delete_row, conflict-change_row, conflict-map,
}
use rdpproxy_v.Servers.Ports.{created-IsPort, updated-IsPort}
use rdpproxy_v.Servers.Requests.{
  Servers, Outcome, ServerOut, ServerCreate, ServerUpdate, to_out, finish, created, updated, named,
  insert_row, write_row, create_server, update_server, delete_server, set_visibility,
}
use rdpproxy_v.Servers.Clone.{copy, attempted, after_rollback, reread, attempts, clone_server}
use rdpproxy_v.Servers.Reorder.{ordered, reorder_one, reorder_from, reorder_servers}

commit-conflict :
    (row : RdpServer) (after : Servers) → commit row after ≡ committed → conflict after ≡ false
unfolding commit
commit-conflict row after h = by_tests (oversize row) (conflict after) h
  where
    by_tests :
        (long clash : Bool)
        → (if long then data_error else if clash then integrity_error else committed) ≡ committed
        → clash ≡ false
    by_tests true clash h = cc
    by_tests false true h = cc
    by_tests false false h = refl

pub data Request : Type 0 where
  create : (new_id : Text) (body : ServerCreate) → Request
  update : (server_id : Text) (body : ServerUpdate) → Request
  delete : (server_id : Text) → Request
  visibility : (server_id : Text) (is_enabled : Bool) → Request
  clone : (new_id : ℕ → Text) (server_id : Text) → Request
  reorder : (order : List Text) → Request

ordered-KeepsKeys : (uid : Text) (i : ℕ) → KeepsKeys (ordered uid i)
ordered-KeepsKeys uid i s = elim (Bool-cases (text_eq s.id uid)) [
  | inl e ↦ rw e (refl, refl)
  | inr e ↦ rw e (refl, refl)
]

map-HavePorts :
    (uid : Text) (i : ℕ) (rows : Servers) → HavePorts rows → HavePorts (map (ordered uid i) rows)
map-HavePorts uid i [] h = tt
map-HavePorts uid i (s ∷ rows) h = elim (Bool-cases (text_eq s.id uid)) [
  | inl e ↦ (rw e h.0, map-HavePorts uid i rows h.1)
  | inr e ↦ (rw e h.0, map-HavePorts uid i rows h.1)
]

reorder_one-IsSound :
    (o : Option Text) (i : ℕ) (rows : Servers) → IsSound rows → IsSound (reorder_one o i rows)
unfolding reorder_one
reorder_one-IsSound none i rows sound = sound
reorder_one-IsSound (some uid) i rows sound = (
  map-HavePorts uid i rows sound.0,
  conflict-map rows (ordered uid i) (ordered-KeepsKeys uid i) ∙ sound.1,
)

module _ (digit_of : ℕ → Option ℕ) (parse_uuid cn_of : Text → Option Text) (lower : Text → Text)
    (message : Servers → Text) (expired : Option Error) where
  pub handle : Servers → Request → Servers
  unfolding create_server update_server delete_server set_visibility clone_server reorder_servers
  handle rows (create new_id body) =
      (create_server digit_of parse_uuid cn_of lower message new_id rows body).1
  handle rows (update server_id body) =
      (update_server digit_of parse_uuid cn_of lower message rows server_id body).1
  handle rows (delete server_id) =
      (delete_server digit_of parse_uuid cn_of lower message rows server_id).1
  handle rows (visibility server_id on) =
      (set_visibility digit_of parse_uuid cn_of lower message rows server_id on).1
  handle rows (clone new_id server_id) =
      (clone_server cn_of expired new_id parse_uuid rows server_id).1
  handle rows (reorder order) = reorder_servers parse_uuid rows order

  pub handle_all : Servers → List Request → Servers
  unfolding handle
  handle_all rows [] = rows
  handle_all rows (r ∷ rs) = handle_all (handle rows r) rs

  finish-IsSound :
      (c : Commit) (row : RdpServer) (before after : Servers)
      → commit row after ≡ c
      → IsSound before
      → HavePorts after
      → IsSound (finish lower message cn_of c row before after).1
  unfolding finish
  finish-IsSound committed row before after e sound ports = (ports, commit-conflict row after e)
  finish-IsSound integrity_error row before after e sound ports = sound
  finish-IsSound data_error row before after e sound ports = sound

  insert_row-IsSound :
      (rows : Servers) (r : Reply RdpServer)
      → IsSound rows
      → ((s : RdpServer) → r ≡ answer s → IsPort s.port)
      → IsSound (insert_row digit_of parse_uuid cn_of lower message rows r).1
  insert_row-IsSound rows (http_error code) sound port = sound
  insert_row-IsSound rows (answer s) sound port =
      finish-IsSound (commit s (rows ++ (s ∷ []))) s rows (rows ++ (s ∷ [])) refl sound
        (append-HavePorts rows s sound.0 (port s refl))

  write_row-IsSound :
      (rows : Servers) (r : Reply RdpServer)
      → IsSound rows
      → ((s : RdpServer) → r ≡ answer s → IsPort s.port)
      → IsSound (write_row digit_of parse_uuid cn_of lower message rows r).1
  write_row-IsSound rows (http_error code) sound port = sound
  write_row-IsSound rows (answer s) sound port =
      finish-IsSound (commit s (change_row rows s.id (λ _. s))) s rows
        (change_row rows s.id (λ _. s)) refl sound
        (change_row-HavePorts rows s.id (λ _. s) sound.0 (λ t p. port s refl))

  clone_attempts :
      (left attempt : ℕ) (new_id : ℕ → Text) (src : RdpServer) (rows : Servers)
      → IsSound rows
      → IsPort src.port
      → IsSound (attempts cn_of expired new_id left attempt src rows).1
  unfolding attempts
  clone_attempts zero attempt new_id src rows sound port = sound
  clone_attempts (suc left) attempt new_id src rows sound port =
      let row = copy (new_id attempt) attempt src in
      tried (commit row (rows ++ (row ∷ []))) left
        (attempts cn_of expired new_id left (suc attempt) src rows) refl
        (clone_attempts left (suc attempt) new_id src rows sound port)
    where
      reread_sound :
          (o : Option Error) (more : Outcome ServerOut)
          → IsSound more.1
          → IsSound (reread cn_of expired new_id o rows more).1
      reread_sound none more h = h
      reread_sound (some e) more h = sound

      rolled_back :
          (left : ℕ) (more : Outcome ServerOut)
          → IsSound more.1
          → IsSound (after_rollback cn_of expired new_id left rows more).1
      rolled_back zero more h = h
      rolled_back (suc left) more h = reread_sound expired more h

      tried :
          (c : Commit) (left : ℕ) (more : Outcome ServerOut)
          → (let row = copy (new_id attempt) attempt src in commit row (rows ++ (row ∷ []))) ≡ c
          → IsSound more.1
          → IsSound
              (attempted cn_of expired new_id c
                (copy (new_id attempt) attempt src)
                rows
                (after_rollback cn_of expired new_id left rows more)).1
      tried committed left more e h = (
        append-HavePorts rows (copy (new_id attempt) attempt src) sound.0 port,
        commit-conflict (copy (new_id attempt) attempt src)
            (rows ++ (copy (new_id attempt) attempt src ∷ [])) e,
      )
      tried integrity_error left more e h = rolled_back left more h
      tried data_error left more e h = sound

  reorder_from-IsSound :
      (i : ℕ) (order : List Text) (rows : Servers)
      → IsSound rows
      → IsSound (reorder_from parse_uuid i order rows)
  unfolding reorder_from
  reorder_from-IsSound i [] rows sound = sound
  reorder_from-IsSound i (sid ∷ order) rows sound =
      reorder_from-IsSound (suc i) order (reorder_one (parse_uuid (strip sid)) i rows)
        (reorder_one-IsSound (parse_uuid (strip sid)) i rows sound)

  handle-IsSound : (rows : Servers) (r : Request) → IsSound rows → IsSound (handle rows r)
  unfolding handle create_server update_server delete_server set_visibility clone_server
      reorder_servers
  handle-IsSound rows (create new_id body) sound =
      insert_row-IsSound rows (created digit_of parse_uuid new_id body) sound
        (λ s h. created-IsPort digit_of parse_uuid new_id body s h)
  handle-IsSound rows (update server_id body) sound =
      at (named parse_uuid rows server_id)
        (λ s h. named-IsPort parse_uuid rows server_id s sound.0 h)
    where
      at :
          (n : Reply RdpServer)
          → ((s : RdpServer) → n ≡ answer s → IsPort s.port)
          → IsSound
              (elim n as (λ _. Outcome ServerOut) [
                | http_error code ↦ (ok (http_error code), rows)
                | answer s ↦
                    write_row digit_of parse_uuid cn_of lower message rows
                      (updated digit_of parse_uuid body s)
              ]).1
      at (http_error code) port = sound
      at (answer s) port =
          write_row-IsSound rows (updated digit_of parse_uuid body s) sound
            (λ t h. updated-IsPort digit_of parse_uuid body s t (port s refl) h)
  handle-IsSound rows (delete server_id) sound = at (named parse_uuid rows server_id)
    where
      at :
          (n : Reply RdpServer)
          → IsSound
              (elim n as (λ _. Outcome (Unit {0})) [
                | http_error code ↦ (ok (http_error code), rows)
                | answer s ↦ (ok (answer tt), delete_row rows s.id)
              ]).1
      at (http_error code) = sound
      at (answer s) =
          (delete_row-HavePorts rows s.id sound.0, conflict-delete_row rows s.id sound.1)
  handle-IsSound rows (visibility server_id on) sound = at (named parse_uuid rows server_id)
    where
      at :
          (n : Reply RdpServer)
          → IsSound
              (elim n as (λ _. Outcome ServerOut) [
                | http_error code ↦ (ok (http_error code), rows)
                | answer s ↦ (
                  ok (answer (to_out cn_of (record s { is_enabled = on }))),
                  change_row rows s.id (λ u. record u { is_enabled = on }),
                )
              ]).1
      at (http_error code) = sound
      at (answer s) = (
        change_row-HavePorts rows s.id (λ u. record u { is_enabled = on }) sound.0 (λ t p. p),
        conflict-change_row rows s.id (λ u. record u { is_enabled = on }) (λ t. (refl, refl))
            ∙ sound.1,
      )
  handle-IsSound rows (clone new_id server_id) sound =
      at (named parse_uuid rows server_id)
        (λ s h. named-IsPort parse_uuid rows server_id s sound.0 h)
    where
      at :
          (n : Reply RdpServer)
          → ((s : RdpServer) → n ≡ answer s → IsPort s.port)
          → IsSound
              (elim n as (λ _. Outcome ServerOut) [
                | http_error code ↦ (ok (http_error code), rows)
                | answer src ↦ attempts cn_of expired new_id 5 1 src rows
              ]).1
      at (http_error code) port = sound
      at (answer src) port = clone_attempts 5 1 new_id src rows sound (port src refl)
  handle-IsSound rows (reorder order) sound = reorder_from-IsSound 0 order rows sound

  -- Whatever requests the administrators send to a table of servers in which every port is between
  -- 1 and 65535, no two rows have one technical name and no row has one group twice: the table
  -- stays such a table.
  pub handle_all-IsSound :
      (rs : List Request) (rows : Servers) → IsSound rows → IsSound (handle_all rows rs)
  unfolding handle_all
  handle_all-IsSound [] rows sound = sound
  handle_all-IsSound (r ∷ rs) rows sound =
      handle_all-IsSound rs (handle rows r) (handle-IsSound rows r sound)
