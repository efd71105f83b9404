-- ===== src/Templates/Default.antt =====
-- services/admin/routes/templates.py: the default template, whatever requests come.
use mathlib.Core.Option.{some-injective}
use rdpproxy_v.Prelude.{
  ◌≤◌, ◌≡◌, refl, sym, ap, ◌∙◌, inl, inr, Bool, true, false, Option, some, List, [], ◌∷◌,
  Bool-cases, if◌then◌else◌, arith,
}
use rdpproxy_v.Prelude.Text.{Text, text_eq}
use rdpproxy_v.Admins.{Reply, answer, http_error}
use rdpproxy_v.Templates.{
  TemplateRow, Templates, TemplateCreate, TemplateUpdate, find_row, change_row, delete_row,
  unset_if, create_template, assigned, regrouped, named, sets_default, write_row, update_template,
  delete_template,
}
use rdpproxy_v.Templates.Count.{
  default_count, one, default_count-cons, named-find_row, finish_default, create_default,
  written_default,
}

default_count-delete_row :
    (rows : Templates) (tid : Text) (t : TemplateRow)
    → find_row rows tid ≡ some t
    → t.content.is_default ≡ false
    → default_count (delete_row rows tid) ≡ default_count rows
unfolding find_row delete_row
default_count-delete_row [] tid t h plain = cc
default_count-delete_row (u ∷ rows) tid t h plain = elim (Bool-cases (text_eq u.id tid)) [
  | inl e ↦
      let same : u ≡ t =
        some-injective u t
          (sym (ap (λ (b : Bool). if b then some u else find_row rows tid) e) ∙ h) in
      let alike : one u.content.is_default ≡ 0 =
        ap (λ (x : TemplateRow). one x.content.is_default) same ∙ ap one plain in
      rw e (omega (arith, default_count-cons u rows, alike))
  | inr e ↦ rw e (
      omega (
        arith,
        default_count-cons u (delete_row rows tid),
        default_count-cons u rows,
        default_count-delete_row rows tid t
            (sym (ap (λ (b : Bool). if b then some u else find_row rows tid) e) ∙ h) plain,
      ))
]

pub data Request : Type 0 where
  create : (new_id : Text) (body : TemplateCreate) → Request
  update : (template_id : Text) (body : TemplateUpdate) → Request
  delete : (template_id : Text) → Request

module _ (parse_uuid : Text → Option Text) where
  pub handle : Templates → Request → Templates
  unfolding create_template update_template delete_template
  handle rows (create new_id body) = (create_template parse_uuid new_id rows body).1
  handle rows (update template_id body) = (update_template parse_uuid rows template_id body).1
  handle rows (delete template_id) = (delete_template parse_uuid rows template_id).1

  pub handle_all : Templates → List Request → Templates
  unfolding handle
  handle_all rows [] = rows
  handle_all rows (r ∷ rs) = handle_all (handle rows r) rs

  -- No deletion changes how many default templates there are: the request is refused, or the row
  -- that it deletes is no default.
  pub delete_template-default_count :
      (rows : Templates) (template_id : Text)
      → default_count (delete_template parse_uuid rows template_id).1 ≡ default_count rows
  unfolding delete_template
  delete_template-default_count rows template_id =
      at (named parse_uuid rows template_id) (λ t h. named-find_row parse_uuid rows template_id t h)
    where
      deleted :
          (b : Bool) (t : TemplateRow)
          → t.content.is_default ≡ b
          → find_row rows t.id ≡ some t
          → default_count
              (if◌then◌else◌ {A = Reply (Unit {0}) × Templates} b
                (http_error 400, rows)
                (answer tt, delete_row rows t.id)).1
            ≡ default_count rows
      deleted true t e there = refl
      deleted false t e there = default_count-delete_row rows t.id t there e

      at :
          (n : Reply TemplateRow)
          → ((t : TemplateRow) → n ≡ answer t → find_row rows t.id ≡ some t)
          → default_count
              (elim n as (λ _. Reply (Unit {0}) × Templates) [
                | http_error code ↦ (http_error code, rows)
                | answer t ↦
                    if t.content.is_default
                    then (http_error 400, rows)
                    else (answer tt, delete_row rows t.id)
              ]).1
            ≡ default_count rows
      at (http_error code) found = refl
      at (answer t) found = deleted t.content.is_default t refl (found t refl)

  update_default :
      (rows : Templates) (template_id : Text) (body : TemplateUpdate)
      → default_count rows ≤ 1
      → default_count (update_template parse_uuid rows template_id body).1 ≤ 1
  unfolding update_template write_row
  update_default rows template_id body h =
      at (named parse_uuid rows template_id) (λ t e. named-find_row parse_uuid rows template_id t e)
    where
      written :
          (t : TemplateRow) (g : Reply (List Text))
          → find_row rows t.id ≡ some t
          → default_count (write_row parse_uuid rows body t g).1 ≤ 1
      written t (http_error code) there = h
      written t (answer groups) there =
          finish_default parse_uuid (assigned parse_uuid body groups t) rows
            (change_row (unset_if (sets_default parse_uuid body) rows) t.id
              (λ _. assigned parse_uuid body groups t))
            h
            (written_default parse_uuid body.is_default rows t (assigned parse_uuid body groups t) h
              there refl)

      at :
          (n : Reply TemplateRow)
          → ((t : TemplateRow) → n ≡ answer t → find_row rows t.id ≡ some t)
          → default_count
              (elim n as (λ _. Reply TemplateRow × Templates) [
                | http_error code ↦ (http_error code, rows)
                | answer t ↦ write_row parse_uuid rows body t (regrouped parse_uuid body t)
              ]).1
            ≤ 1
      at (http_error code) found = h
      at (answer t) found = written t (regrouped parse_uuid body t) (found t refl)

  handle_default :
      (rows : Templates) (r : Request) → default_count rows ≤ 1 → default_count (handle rows r) ≤ 1
  unfolding handle
  handle_default rows (create new_id body) h = create_default parse_uuid new_id rows body h
  handle_default rows (update template_id body) h = update_default rows template_id body h
  handle_default rows (delete template_id) h =
      omega (arith, delete_template-default_count rows template_id)

  -- Whatever requests the administrators send, where there was at most one default template there
  -- is at most one afterwards.
  pub default_count-handle_all :
      (rs : List Request) (rows : Templates)
      → default_count rows ≤ 1
      → default_count (handle_all rows rs) ≤ 1
  unfolding handle_all
  default_count-handle_all [] rows h = h
  default_count-handle_all (r ∷ rs) rows h =
      default_count-handle_all rs (handle rows r) (handle_default rows r h)
