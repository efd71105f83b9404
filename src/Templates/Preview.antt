-- ===== src/Templates/Preview.antt =====
-- services/admin/routes/templates.py against libs/rdp/rdp_file.py: the preview is what users get.
use rdpproxy_v.Prelude.{
  ◌≡◌, refl, sym, ap, ◌∙◌, Bool, true, false, ◌||◌, not, Option, none, some, List, [], ◌∷◌, ℕ, map,
  if◌then◌else◌,
}
use rdpproxy_v.Prelude.Text.{Text}
use rdpproxy_v.RdpFile.{
  Params, RdpTemplate, update, default_rdp_params, default_template, sorted, lowered, intersects,
  group_set, applies, merge_templates, with_default, chosen_params, system_params, merged,
}
use rdpproxy_v.Templates.{TemplateRow, Templates, skips, previewed, start, preview_template}

module _ (lower : Text → Text) where
  chosen :
      (groups : List Text) (t : RdpTemplate) (d : Params)
      → (if skips lower groups t then d else update d t.params)
        ≡ (if t.is_default then d else if applies lower groups t then update d t.params else d)
  unfolding skips applies
  chosen groups t d = at t.is_default t.group_guids
    where
      at :
          (default_ : Bool) (guids : List Text)
          → (if default_ || elim guids as (λ _. Bool) [
            | [] ↦ false
            | g ∷ gs ↦ not (intersects (lowered lower (g ∷ gs)) groups)
          ]
              then d
              else update d t.params)
            ≡ (if default_
                then d
                else if elim guids as (λ _. Bool) [
                  | [] ↦ true
                  | g ∷ gs ↦ intersects (lowered lower (g ∷ gs)) groups
                ]
                then update d t.params
                else d)
      at true guids = refl
      at false [] = refl
      at false (g ∷ gs) = by_groups (intersects (lowered lower (g ∷ gs)) groups)
        where
          by_groups :
              (b : Bool)
              → (if not b then d else update d t.params) ≡ (if b then update d t.params else d)
          by_groups true = refl
          by_groups false = refl

  previewed-merge_templates :
      (groups : List Text) (ts : List RdpTemplate) (d : Params)
      → previewed lower groups d ts ≡ merge_templates lower groups d ts
  unfolding previewed merge_templates
  previewed-merge_templates groups [] d = refl
  previewed-merge_templates groups (t ∷ ts) d =
      previewed-merge_templates groups ts (if skips lower groups t then d else update d t.params)
      ∙ ap (λ e. merge_templates lower groups e ts) (chosen groups t d)

  started : (o : Option RdpTemplate) → with_default lower default_rdp_params o ≡ start lower o
  unfolding with_default
  started none = refl
  started (some t) = refl

  -- What the panel previews for some groups is what the .rdp file of a user with those groups is
  -- made of: the file's settings are the preview's, with the entries that the portal sets last set
  -- on top.
  pub preview_template-merged :
      (rows : Templates) (groups : List Text) (proxy_host : Text) (proxy_port : ℕ) (token : Text)
      → merged lower
          (some (map (λ (t : TemplateRow). t.content) rows))
          groups
          proxy_host
          proxy_port
          token
        ≡ update
            (preview_template lower rows groups)
            (system_params lower proxy_host proxy_port token)
  unfolding merged chosen_params preview_template with_default
  preview_template-merged rows groups proxy_host proxy_port token =
      let templates = map (λ (t : TemplateRow). t.content) rows in
      ap (λ d. update d (system_params lower proxy_host proxy_port token))
        (ap (λ d. merge_templates lower (group_set lower groups) d (sorted templates))
            (started (default_template templates))
          ∙ sym (
              previewed-merge_templates (group_set lower groups) (sorted templates)
                (start lower (default_template templates))))
