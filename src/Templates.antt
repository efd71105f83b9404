-- ===== src/Templates.antt =====
-- services/admin/routes/templates.py: the templates of the .rdp files, rows of the database, and the
-- requests that change and preview them. `parse_uuid` is `str(uuid.UUID(s))`, `lower` is str.lower.
pub mod Count
pub mod Default
pub mod Preview
mod Tests
use rdpproxy_v.Prelude.{
  ℕ, Bool, true, false, ◌&&◌, ◌||◌, not, Option, none, some, List, [], ◌∷◌, ◌++◌, map,
  if◌then◌else◌,
}
use rdpproxy_v.Prelude.Text.{Text, text_eq}
use rdpproxy_v.Search.{strip}
use rdpproxy_v.Admins.{Reply, answer, http_error, or_else}
use rdpproxy_v.RdpFile.{
  Params, RdpTemplate, update, default_rdp_params, default_template, sorted, lowered, intersects,
  group_set, with_default,
}
use rdpproxy_v.Servers.{repeated}

-- libs/db/models/template.py; the rest of the columns is what the .rdp file is made of.
pub record TemplateRow : Type 0 where
  pub id : Text
  pub name : Text
  pub content : RdpTemplate

abbrev pub Templates : Type 0
Templates = List TemplateRow

pub record TemplateCreate : Type 0 where
  pub name : Text
  pub is_default : Bool
  pub priority : ℕ
  pub params : Params
  pub groups : List Text

pub record TemplateUpdate : Type 0 where
  pub name : Option Text
  pub is_default : Option Bool
  pub priority : Option ℕ
  pub params : Option Params
  pub groups : Option (List Text)

unfoldable pub find_row : Templates → Text → Option TemplateRow
unfolding text_eq
find_row [] tid = none
find_row (t ∷ rows) tid = let rest = find_row rows tid in if text_eq t.id tid then some t else rest

unfoldable pub change_row : Templates → Text → (TemplateRow → TemplateRow) → Templates
unfolding text_eq
change_row [] tid f = []
change_row (t ∷ rows) tid f =
    let rest = change_row rows tid f in if text_eq t.id tid then f t ∷ rows else t ∷ rest

unfoldable pub delete_row : Templates → Text → Templates
unfolding text_eq
delete_row [] tid = []
delete_row (t ∷ rows) tid =
    let rest = delete_row rows tid in if text_eq t.id tid then rows else t ∷ rest

unfoldable pub name_used : Text → Templates → Bool
unfolding text_eq
name_used name [] = false
name_used name (t ∷ rows) = text_eq t.name name || name_used name rows

-- unique=True of the name, and the bindings' primary key: some constraint does not hold.
unfoldable pub conflict : Templates → Bool
unfolding name_used repeated
conflict [] = false
conflict (t ∷ rows) = name_used t.name rows || (repeated t.content.group_guids || conflict rows)

-- UPDATE rdp_templates SET is_default = false
abbrev pub not_default : TemplateRow → TemplateRow
not_default t = record t { content = record t.content { is_default = false } }

unfoldable pub unset_default : Templates → Templates
unset_default [] = []
unset_default (t ∷ rows) = not_default t ∷ unset_default rows

abbrev pub unset_if : Bool → Templates → Templates
unset_if b rows = if b then unset_default rows else rows

-- The rows after a commit that would give `after`.
abbrev pub finish : TemplateRow → (before after : Templates) → Reply TemplateRow × Templates
finish t before after = if conflict after then (http_error 409, before) else (answer t, after)

module _ (parse_uuid : Text → Option Text) where
  abbrev with_guid : Option Text → Reply (List Text) → Reply (List Text)
  with_guid none rest = http_error 400
  with_guid (some g) (answer gs) = answer (g ∷ gs)
  with_guid (some g) (http_error code) = http_error code

  unfoldable pub group_uuids : List Text → Reply (List Text)
  group_uuids [] = answer []
  group_uuids (g ∷ groups) = with_guid (parse_uuid g) (group_uuids groups)

  abbrev pub new_row : Text → TemplateCreate → List Text → TemplateRow
  new_row new_id body groups = record {
    id = new_id;
    name = strip body.name;
    content = record {
      is_default = body.is_default;
      priority = body.priority;
      params = update default_rdp_params body.params;
      group_guids = groups;
    };
  }

  unfoldable pub insert_row :
      Text → Templates → TemplateCreate → Reply (List Text) → Reply TemplateRow × Templates
  unfolding strip update default_rdp_params unset_default conflict
  insert_row new_id rows body (http_error code) = (http_error code, rows)
  insert_row new_id rows body (answer groups) =
      let t = new_row new_id body groups in
      finish t rows (unset_if body.is_default rows ++ (t ∷ []))

  unfoldable pub create_template :
      (new_id : Text) → Templates → TemplateCreate → Reply TemplateRow × Templates
  unfolding insert_row group_uuids
  create_template new_id rows body = insert_row new_id rows body (group_uuids body.groups)

  abbrev pub assigned : TemplateUpdate → List Text → TemplateRow → TemplateRow
  assigned body groups t = record t {
    name = elim body.name [ none ↦ t.name | some name ↦ strip name ];
    content = record {
      is_default = or_else body.is_default t.content.is_default;
      priority = or_else body.priority t.content.priority;
      params = elim body.params [
        | none ↦ t.content.params
        | some params ↦ update default_rdp_params params
      ];
      group_guids = groups;
    };
  }

  unfoldable pub regrouped : TemplateUpdate → TemplateRow → Reply (List Text)
  unfolding group_uuids
  regrouped body t = elim body.groups [
    | none ↦ answer t.content.group_guids
    | some groups ↦ group_uuids groups
  ]

  -- The row that a request names: 400 for an id that is no UUID, 404 for one that is not there.
  unfoldable pub named : Templates → Text → Reply TemplateRow
  unfolding find_row
  named rows template_id = elim (parse_uuid template_id) [
    | none ↦ http_error 400
    | some tid ↦ elim (find_row rows tid) [ none ↦ http_error 404 | some t ↦ answer t ]
  ]

  abbrev pub sets_default : TemplateUpdate → Bool
  sets_default body = elim body.is_default [ some true ↦ true | _ ↦ false ]

  unfoldable pub write_row :
      Templates → TemplateUpdate → TemplateRow → Reply (List Text) → Reply TemplateRow × Templates
  unfolding strip update default_rdp_params unset_default change_row conflict
  write_row rows body t (http_error code) = (http_error code, rows)
  write_row rows body t (answer groups) =
      finish (assigned body groups t) rows
        (change_row (unset_if (sets_default body) rows) t.id (λ _. assigned body groups t))

  unfoldable pub update_template : Templates → Text → TemplateUpdate → Reply TemplateRow × Templates
  unfolding named regrouped write_row
  update_template rows template_id body = elim (named rows template_id) [
    | http_error code ↦ (http_error code, rows)
    | answer t ↦ write_row rows body t (regrouped body t)
  ]

  unfoldable pub delete_template : Templates → Text → Reply (Unit {0}) × Templates
  unfolding named delete_row
  delete_template rows template_id = elim (named rows template_id) [
    | http_error code ↦ (http_error code, rows)
    | answer t ↦
        if t.content.is_default then (http_error 400, rows) else (answer tt, delete_row rows t.id)
  ]

module _ (lower : Text → Text) where
  -- `continue` for the default, and for a template of other groups.
  unfoldable pub skips : List Text → RdpTemplate → Bool
  unfolding lowered intersects
  skips groups t = t.is_default || elim t.group_guids [
    | [] ↦ false
    | g ∷ gs ↦ not (intersects (lowered lower (g ∷ gs)) groups)
  ]

  unfoldable pub previewed : List Text → Params → List RdpTemplate → Params
  unfolding skips update
  previewed groups merged [] = merged
  previewed groups merged (t ∷ ts) =
      previewed groups (if skips groups t then merged else update merged t.params) ts

  abbrev pub start : Option RdpTemplate → Params
  start none = default_rdp_params
  start (some t) = update default_rdp_params t.params

  unfoldable pub preview_template : Templates → List Text → Params
  unfolding previewed group_set sorted default_template update default_rdp_params
  preview_template rows groups =
      let templates = map (λ (t : TemplateRow). t.content) rows in
      previewed (group_set lower groups) (start (default_template templates)) (sorted templates)
