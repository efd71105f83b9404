-- ===== src/Servers/Requests.antt =====
-- services/admin/routes/servers.py: the requests that read and write the rows. `cn_of` is the cache
-- of the groups' names, `message` what the text of an IntegrityError is, `lower` is str.lower.
use rdpproxy_v.Prelude.{
  ℕ, Bool, ◌||◌, Option, none, some, List, [], ◌∷◌, ◌++◌, map, is_some, if◌then◌else◌,
}
use rdpproxy_v.Prelude.Int.{ℤ}
use rdpproxy_v.Prelude.Text.{Text, codes, or_text}
use rdpproxy_v.Errors.{Result, ok, err, db_error}
use rdpproxy_v.Search.{find, strip}
use rdpproxy_v.Admins.{Reply, answer, http_error, or_else}
use rdpproxy_v.Servers.{
  RdpServer, find_row, change_row, delete_row, Commit, committed, integrity_error, data_error,
  commit,
}
use rdpproxy_v.Servers.Address.{split_address, parse_group_guids}

pub record ServerOut : Type 0 where
  pub id : Text
  pub tech_name : Text
  pub display_name : Text
  pub address : Text
  pub port : ℕ
  pub is_enabled : Bool
  pub sort_order : ℤ
  pub groups : List Text
  pub group_details : List (Text × Text)

pub record ServerCreate : Type 0 where
  pub tech_name : Text
  pub display_name : Text
  pub address : Text
  pub port : Option ℕ
  pub is_enabled : Bool
  pub sort_order : ℤ
  pub groups : List Text

pub record ServerUpdate : Type 0 where
  pub tech_name : Option Text
  pub display_name : Option Text
  pub address : Option Text
  pub port : Option ℕ
  pub is_enabled : Option Bool
  pub sort_order : Option ℤ
  pub groups : Option (List Text)

abbrev pub Servers : Type 0
Servers = List RdpServer

abbrev pub Outcome : Type 0 → Type 0
Outcome A = Result (Reply A) × Servers

module _ (cn_of : Text → Option Text) where
  abbrev pub to_out : RdpServer → ServerOut
  to_out s = record {
    id = s.id;
    tech_name = s.tech_name;
    display_name = s.display_name;
    address = s.address;
    port = s.port;
    is_enabled = s.is_enabled;
    sort_order = s.sort_order;
    groups = s.group_bindings;
    group_details = map (λ g. (g, or_else (cn_of g) g)) s.group_bindings;
  }

module _ (lower : Text → Text) (message : Servers → Text) where
  -- The status that `_handle_integrity_error` raises.
  unfoldable pub handle_integrity_error : Text → ℕ
  unfolding find
  handle_integrity_error msg =
      if is_some (find (codes "rdp_servers_tech_name_key") (lower msg))
        || is_some (find (codes "duplicate key value") (lower msg))
      then 409
      else 400

  -- After the commit of `row`, which would give the rows `after`.
  unfoldable pub finish :
      (cn_of : Text → Option Text)
      → Commit
      → RdpServer
      → (before after : Servers) → Outcome ServerOut
  unfolding handle_integrity_error
  finish cn_of committed row before after = (ok (answer (to_out cn_of row)), after)
  finish cn_of integrity_error row before after =
      (ok (http_error (handle_integrity_error (message after))), before)
  finish cn_of data_error row before after = (err db_error, before)

abbrev pub new_row : Text → ServerCreate → Text × ℕ → List Text → RdpServer
new_row new_id body (host, p) groups = record {
  id = new_id;
  tech_name = strip body.tech_name;
  display_name = strip body.display_name;
  address = host;
  port = p;
  is_enabled = body.is_enabled;
  sort_order = body.sort_order;
  group_bindings = groups;
}

module _ (digit_of : ℕ → Option ℕ) (parse_uuid : Text → Option Text) where
  abbrev pub creation : Text → ServerCreate → Reply (Text × ℕ) → Reply (List Text) → Reply RdpServer
  creation new_id body (http_error code) groups = http_error code
  creation new_id body (answer hp) (http_error code) = http_error code
  creation new_id body (answer hp) (answer groups) = answer (new_row new_id body hp groups)

  unfoldable pub created : Text → ServerCreate → Reply RdpServer
  unfolding split_address parse_group_guids
  created new_id body =
      creation new_id body (split_address digit_of body.address body.port)
        (parse_group_guids parse_uuid body.groups)

  -- A host and a port, if the request has one of them.
  unfoldable pub readdressed : ServerUpdate → RdpServer → Reply (Text × ℕ)
  unfolding split_address
  readdressed body s =
      if is_some body.address || is_some body.port
      then split_address digit_of (or_text (or_else body.address []) s.address)
          (some (or_else body.port s.port))
      else answer (s.address, s.port)

  unfoldable pub regrouped : ServerUpdate → RdpServer → Reply (List Text)
  unfolding parse_group_guids
  regrouped body s = elim body.groups [
    | none ↦ answer s.group_bindings
    | some groups ↦ parse_group_guids parse_uuid groups
  ]

  abbrev pub assigned : ServerUpdate → RdpServer → Text × ℕ → List Text → RdpServer
  assigned body s (host, p) groups = record s {
    address = host;
    port = p;
    tech_name = elim body.tech_name [ none ↦ s.tech_name | some t ↦ strip t ];
    display_name = elim body.display_name [ none ↦ s.display_name | some t ↦ strip t ];
    is_enabled = or_else body.is_enabled s.is_enabled;
    sort_order = or_else body.sort_order s.sort_order;
    group_bindings = groups;
  }

  abbrev pub assignment :
      ServerUpdate → RdpServer → Reply (Text × ℕ) → Reply (List Text) → Reply RdpServer
  assignment body s (http_error code) groups = http_error code
  assignment body s (answer hp) (http_error code) = http_error code
  assignment body s (answer hp) (answer groups) = answer (assigned body s hp groups)

  unfoldable pub updated : ServerUpdate → RdpServer → Reply RdpServer
  unfolding readdressed regrouped
  updated body s = assignment body s (readdressed body s) (regrouped body s)

-- The row that a request names: 400 for an id that is no UUID, 404 for one that is not there.
unfoldable pub named : (parse_uuid : Text → Option Text) → Servers → Text → Reply RdpServer
unfolding find_row
named parse_uuid rows server_id = elim (parse_uuid server_id) [
  | none ↦ http_error 400
  | some sid ↦ elim (find_row rows sid) [ none ↦ http_error 404 | some s ↦ answer s ]
]

module _ (digit_of : ℕ → Option ℕ) (parse_uuid cn_of : Text → Option Text) (lower : Text → Text)
    (message : Servers → Text) where
  abbrev pub insert_row : Servers → Reply RdpServer → Outcome ServerOut
  insert_row rows (http_error code) = (ok (http_error code), rows)
  insert_row rows (answer s) =
      finish lower message cn_of (commit s (rows ++ (s ∷ []))) s rows (rows ++ (s ∷ []))

  -- The new row comes last; the order of the rows is the database's.
  unfoldable pub create_server : (new_id : Text) → Servers → ServerCreate → Outcome ServerOut
  unfolding created finish commit
  create_server new_id rows body = insert_row rows (created digit_of parse_uuid new_id body)

  abbrev pub write_row : Servers → Reply RdpServer → Outcome ServerOut
  write_row rows (http_error code) = (ok (http_error code), rows)
  write_row rows (answer s) =
      finish lower message cn_of (commit s (change_row rows s.id (λ _. s))) s rows
        (change_row rows s.id (λ _. s))

  unfoldable pub update_server : Servers → Text → ServerUpdate → Outcome ServerOut
  unfolding named updated finish commit change_row
  update_server rows server_id body = elim (named parse_uuid rows server_id) [
    | http_error code ↦ (ok (http_error code), rows)
    | answer s ↦ write_row rows (updated digit_of parse_uuid body s)
  ]

  unfoldable pub delete_server : Servers → Text → Outcome (Unit {0})
  unfolding named delete_row
  delete_server rows server_id = elim (named parse_uuid rows server_id) [
    | http_error code ↦ (ok (http_error code), rows)
    | answer s ↦ (ok (answer tt), delete_row rows s.id)
  ]

  unfoldable pub set_visibility : Servers → Text → Bool → Outcome ServerOut
  unfolding named change_row
  set_visibility rows server_id is_enabled = elim (named parse_uuid rows server_id) [
    | http_error code ↦ (ok (http_error code), rows)
    | answer s ↦ (
      ok (answer (to_out cn_of (record s { is_enabled = is_enabled }))),
      change_row rows s.id (λ u. record u { is_enabled = is_enabled }),
    )
  ]

  unfoldable pub get_server : Servers → Text → Reply ServerOut
  unfolding named
  get_server rows server_id = elim (named parse_uuid rows server_id) [
    | http_error code ↦ http_error code
    | answer s ↦ answer (to_out cn_of s)
  ]
