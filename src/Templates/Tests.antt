-- ===== src/Templates/Tests.antt =====
-- Two templates, of which one is the default.
use rdpproxy_v.Prelude.{◌≤◌, ◌≡◌, arith, true, false, none, some, [], ◌∷◌, map}
use rdpproxy_v.Prelude.Int.{pos}
use rdpproxy_v.Prelude.Text.{Text, codes}
use rdpproxy_v.RdpFile
use rdpproxy_v.RdpFile.{int, merged, system_params}
use rdpproxy_v.Templates.{TemplateRow, Templates, TemplateUpdate, delete_template, preview_template}
use rdpproxy_v.Templates.Count.{default_count}
use rdpproxy_v.Templates.Preview.{preview_template-merged}
use rdpproxy_v.Templates.Default.{
  update, delete, handle_all, delete_template-default_count, default_count-handle_all,
}

abbrev same : Text → Text
same t = t

abbrev everybody : TemplateRow
everybody = record {
  id = codes "1";
  name = codes "all";
  content = record {
    is_default = true;
    priority = 0;
    params = (codes "audiomode", int (pos 1)) ∷ [];
    group_guids = [];
  };
}

abbrev staff : TemplateRow
staff = record {
  id = codes "2";
  name = codes "staff";
  content = record {
    is_default = false;
    priority = 5;
    params = (codes "audiomode", int (pos 2)) ∷ [];
    group_guids = codes "g" ∷ [];
  };
}

abbrev rows : Templates
rows = everybody ∷ staff ∷ []

-- The second becomes the default, then somebody tries to delete it.
abbrev promote : TemplateUpdate
promote = record {
  name = none;
  is_default = some true;
  priority = none;
  params = none;
  groups = none;
}

default_count-handle_all_example :
    default_count (handle_all some rows (update (codes "2") promote ∷ delete (codes "2") ∷ [])) ≤ 1
unfolding default_count
default_count-handle_all_example =
    default_count-handle_all some (update (codes "2") promote ∷ delete (codes "2") ∷ []) rows
      (omega arith)

delete_template-default_count_example :
    default_count (delete_template some rows (codes "1")).1 ≡ default_count rows
delete_template-default_count_example = delete_template-default_count some rows (codes "1")

preview_template-merged_example :
    merged same
      (some (map (λ (t : TemplateRow). t.content) rows))
      (codes "g" ∷ [])
      (codes "gate")
      443
      (codes "tok")
    ≡ RdpFile.update
        (preview_template same rows (codes "g" ∷ []))
        (system_params same (codes "gate") 443 (codes "tok"))
preview_template-merged_example =
    preview_template-merged same rows (codes "g" ∷ []) (codes "gate") 443 (codes "tok")
