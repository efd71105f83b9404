-- ===== src/Templates/Count.antt =====
-- services/admin/routes/templates.py: how many default templates there are after a write.
use rdpproxy_v.Prelude.{
  ℕ, suc, ◌+◌, ◌≤◌, ◌≡◌, refl, sym, ap, ◌∙◌, inl, inr, Bool, true, false, Option, none, some, List,
  [], ◌∷◌, ◌++◌, Bool-cases, if◌then◌else◌, arith,
}
use mathlib.Core.Option.{some-injective}
use rdpproxy_v.Prelude.Text.{Text, text_eq, text_eq_sound}
use rdpproxy_v.Admins.{Reply, answer, http_error, or_else}
use rdpproxy_v.Templates.{
  TemplateRow, Templates, TemplateCreate, find_row, change_row, conflict, unset_default, unset_if,
  finish, group_uuids, new_row, insert_row, create_template, named,
}

unfoldable pub default_count : Templates → ℕ
default_count [] = 0
default_count (t ∷ rows) =
    let rest = default_count rows in if t.content.is_default then suc rest else rest

abbrev pub one : Bool → ℕ
one b = if b then 1 else 0

pub default_count-cons :
    (t : TemplateRow) (rows : Templates)
    → default_count (t ∷ rows) ≡ one t.content.is_default + default_count rows
unfolding default_count
default_count-cons t rows = at t.content.is_default
  where
    at :
        (b : Bool)
        → (if b then suc (default_count rows) else default_count rows) ≡ one b + default_count rows
    at true = omega arith
    at false = omega arith

default_count-unset : (rows : Templates) → default_count (unset_default rows) ≡ 0
unfolding default_count unset_default
default_count-unset [] = refl
default_count-unset (t ∷ rows) = default_count-unset rows

default_count-append :
    (rows : Templates) (t : TemplateRow)
    → default_count (rows ++ (t ∷ [])) ≡ default_count rows + one t.content.is_default
unfolding default_count
default_count-append [] t = at t.content.is_default
  where
    at : (b : Bool) → (if b then 1 else 0) ≡ 0 + one b
    at true = omega arith
    at false = omega arith
default_count-append (u ∷ rows) t = omega (
  arith,
  default_count-cons u (rows ++ (t ∷ [])),
  default_count-cons u rows,
  default_count-append rows t,
)

one_le : (b : Bool) → one b ≤ 1
one_le true = omega arith
one_le false = omega arith

-- A row that is written over one of the rows.
default_count-change_row :
    (rows : Templates) (tid : Text) (t : TemplateRow)
    → default_count (change_row rows tid (λ _. t)) ≤ default_count rows + one t.content.is_default
unfolding change_row
default_count-change_row [] tid t = unfold default_count in omega arith
default_count-change_row (u ∷ rows) tid t = elim (Bool-cases (text_eq u.id tid)) [
  | inl e ↦ rw e (omega (arith, default_count-cons t rows, default_count-cons u rows))
  | inr e ↦ rw e (
      omega (
        arith,
        default_count-cons u (change_row rows tid (λ _. t)),
        default_count-cons u rows,
        default_count-change_row rows tid t,
      ))
]

-- A row that is written over the row that it was made from.
pub default_count-replaced :
    (rows : Templates) (tid : Text) (t t' : TemplateRow)
    → find_row rows tid ≡ some t
    → default_count (change_row rows tid (λ _. t')) + one t.content.is_default
      ≡ default_count rows + one t'.content.is_default
unfolding find_row change_row
default_count-replaced [] tid t t' h = cc
default_count-replaced (u ∷ rows) tid t t' h = elim (Bool-cases (text_eq u.id tid)) [
  | inl e ↦
      let same : u ≡ t =
        some-injective u t
          (sym (ap (λ (b : Bool). if b then some u else find_row rows tid) e) ∙ h) in
      let alike : one u.content.is_default ≡ one t.content.is_default =
        ap (λ (x : TemplateRow). one x.content.is_default) same in
      rw e (omega (arith, default_count-cons t' rows, default_count-cons u rows, alike))
  | inr e ↦ rw e (
      omega (
        arith,
        default_count-cons u (change_row rows tid (λ _. t')),
        default_count-cons u rows,
        default_count-replaced rows tid t t'
            (sym (ap (λ (b : Bool). if b then some u else find_row rows tid) e) ∙ h),
      ))
]

find_row-id :
    (rows : Templates) (tid : Text) (t : TemplateRow) → find_row rows tid ≡ some t → t.id ≡ tid
unfolding find_row
find_row-id [] tid t h = cc
find_row-id (u ∷ rows) tid t h = elim (Bool-cases (text_eq u.id tid)) [
  | inl e ↦
      let same : u ≡ t =
        some-injective u t
          (sym (ap (λ (b : Bool). if b then some u else find_row rows tid) e) ∙ h) in
      ap (λ (x : TemplateRow). x.id) (sym same) ∙ text_eq_sound u.id tid e
  | inr e ↦
      find_row-id rows tid t
        (sym (ap (λ (b : Bool). if b then some u else find_row rows tid) e) ∙ h)
]

module _ (parse_uuid : Text → Option Text) where
  -- The row that a request names stands under its own id.
  pub named-find_row :
      (rows : Templates) (template_id : Text) (t : TemplateRow)
      → named parse_uuid rows template_id ≡ answer t
      → find_row rows t.id ≡ some t
  unfolding named
  named-find_row rows template_id t h = at (parse_uuid template_id) h
    where
      found :
          (tid : Text) (o : Option TemplateRow)
          → find_row rows tid ≡ o
          → elim o as (λ _. Reply TemplateRow) [ none ↦ http_error 404 | some u ↦ answer u ]
            ≡ answer t
          → find_row rows t.id ≡ some t
      found tid none e h = cc
      found tid (some u) e h =
          let same : u ≡ t = cc h in
          let there : find_row rows tid ≡ some t = e ∙ ap some same in
          ap (find_row rows) (find_row-id rows tid t there) ∙ there

      at :
          (o : Option Text)
          → elim o as (λ _. Reply TemplateRow) [
            | none ↦ http_error 400
            | some tid ↦ elim (find_row rows tid) as (λ _. Reply TemplateRow) [
              | none ↦ http_error 404
              | some u ↦ answer u
            ]
          ]
            ≡ answer t
          → find_row rows t.id ≡ some t
      at none h = cc
      at (some tid) h = found tid (find_row rows tid) refl h

  -- At most one default, after a commit or a rollback.
  pub finish_default :
      (t : TemplateRow) (before after : Templates)
      → default_count before ≤ 1
      → default_count after ≤ 1
      → default_count (finish t before after).1 ≤ 1
  finish_default t before after h k = at (conflict after)
    where
      at :
          (b : Bool)
          → default_count
              (if◌then◌else◌ {A = Reply TemplateRow × Templates} b
                (http_error 409, before)
                (answer t, after)).1
            ≤ 1
      at true = h
      at false = k

  inserted_default :
      (b : Bool) (rows : Templates) (t : TemplateRow)
      → default_count rows ≤ 1
      → t.content.is_default ≡ b
      → default_count (unset_if b rows ++ (t ∷ [])) ≤ 1
  inserted_default true rows t h e = omega (
    arith,
    default_count-append (unset_default rows) t,
    default_count-unset rows,
    one_le t.content.is_default,
  )
  inserted_default false rows t h e = omega (arith, default_count-append rows t, ap one e)

  pub create_default :
      (new_id : Text) (rows : Templates) (body : TemplateCreate)
      → default_count rows ≤ 1
      → default_count (create_template parse_uuid new_id rows body).1 ≤ 1
  unfolding create_template
  create_default new_id rows body h = at (group_uuids parse_uuid body.groups)
    where
      at : (g : Reply (List Text)) → default_count (insert_row parse_uuid new_id rows body g).1 ≤ 1
      at g =
          unfold insert_row in
          elim g as (λ g. default_count (insert_row parse_uuid new_id rows body g).1 ≤ 1) [
            | http_error code ↦ h
            | answer groups ↦
                finish_default (new_row parse_uuid new_id body groups) rows
                  (unset_if body.is_default rows ++ (new_row parse_uuid new_id body groups ∷ [])) h
                  (inserted_default body.is_default rows (new_row parse_uuid new_id body groups) h
                    refl)
          ]

  pub written_default :
      (o : Option Bool) (rows : Templates) (t t' : TemplateRow)
      → default_count rows ≤ 1
      → find_row rows t.id ≡ some t
      → t'.content.is_default ≡ or_else o t.content.is_default
      → default_count
          (change_row (unset_if (elim o [ some true ↦ true | _ ↦ false ]) rows) t.id (λ _. t'))
        ≤ 1
  written_default none rows t t' h there e =
      omega (arith, default_count-replaced rows t.id t t' there, ap one e)
  written_default (some true) rows t t' h there e = omega (
    arith,
    default_count-change_row (unset_default rows) t.id t',
    default_count-unset rows,
    one_le t'.content.is_default,
  )
  written_default (some false) rows t t' h there e =
      omega (arith, default_count-change_row rows t.id t', ap one e)
