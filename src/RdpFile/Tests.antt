-- ===== src/RdpFile/Tests.antt =====
-- A template that tries to set the token.
use rdpproxy_v.Prelude.{false, some, [], ◌∷◌}
use rdpproxy_v.Prelude.Text.{Text, codes}
use rdpproxy_v.RdpFile.{text, RdpTemplate, build_rdp_content}

abbrev same : Text → Text
same t = t

abbrev sly : RdpTemplate
sly = record {
  is_default = false;
  priority = 1;
  group_guids = [];
  params = (codes "loadbalanceinfo", text (codes "mine")) ∷ [];
}

abbrev file : Text
file = build_rdp_content same (some (sly ∷ [])) [] (codes "gate") 3389 (codes "tok")
