-- ===== src/RdpFile.antt =====
-- libs/rdp/rdp_file.py: the .rdp file that the portal hands out. A dict is a list of its entries
-- in the order of their insertion. A template's priority is not negative, by the table's constraint. `lower` is Python's; the rows of the templates are arguments.
pub mod System
pub mod Lines
mod Tests
use rdpproxy_v.Prelude.{
  ℕ, zero, suc, Bool, true, false, ◌&&◌, ◌||◌, not, Option, none, some, List, [], ◌∷◌, ◌++◌, leb,
  if◌then◌else◌,
}
use rdpproxy_v.Prelude.Int.{ℤ, pos, negsuc}
use rdpproxy_v.Prelude.Text.{Text, codes, text_eq, non_empty}
use rdpproxy_v.Proxy.Numerals.{decimal}
use rdpproxy_v.Search.{strip}

-- A value of a template's JSON: `float` has what `int()` makes of it, `text` what `str()` does.
pub data Param : Type 0 where
  bool : Bool → Param
  int float : ℤ → Param
  text : Text → Param

abbrev pub Params : Type 0
Params = List (Text × Param)

pub record RdpTemplate : Type 0 where
  pub is_default : Bool
  pub priority : ℕ
  pub params : Params
  pub group_guids : List Text

-- d[key] = value
unfoldable pub set : Params → Text → Param → Params
unfolding text_eq
set [] key value = (key, value) ∷ []
set ((k, v) ∷ d) key value =
    let rest = set d key value in if text_eq k key then (k, value) ∷ d else (k, v) ∷ rest

-- d.get(key)
unfoldable pub lookup : Params → Text → Option Param
unfolding text_eq
lookup [] key = none
lookup ((k, v) ∷ d) key = let rest = lookup d key in if text_eq k key then some v else rest

-- d.update(params)
unfoldable pub update : Params → Params → Params
unfolding set
update d [] = d
update d ((k, v) ∷ params) = update (set d k v) params

unfoldable pub default_rdp_params : Params
default_rdp_params =
    (codes "screen mode id", int (pos 2))
    ∷ (codes "desktopwidth", int (pos 1920))
    ∷ (codes "desktopheight", int (pos 1080))
    ∷ (codes "session bpp", int (pos 32))
    ∷ (codes "use multimon", int (pos 0))
    ∷ (codes "audiomode", int (pos 0))
    ∷ (codes "audiocapturemode", int (pos 0))
    ∷ (codes "keyboardhook", int (pos 2))
    ∷ (codes "redirectclipboard", int (pos 1))
    ∷ (codes "redirectprinters", int (pos 1))
    ∷ (codes "redirectdrives", int (pos 1))
    ∷ (codes "redirectsmartcards", int (pos 1))
    ∷ (codes "disable wallpaper", int (pos 0))
    ∷ (codes "allow font smoothing", int (pos 1))
    ∷ (codes "allow desktop composition", int (pos 1))
    ∷ (codes "bitmapcachepersistenable", int (pos 1))
    ∷ (codes "autoreconnection enabled", int (pos 1))
    ∷ []

unfoldable pub int_text : ℤ → Text
unfolding decimal
int_text (pos n) = decimal n
int_text (negsuc n) = codes "-" ++ decimal (suc n)

unfoldable pub to_line : Text → Param → Text
unfolding int_text
to_line key (bool b) = key ++ (codes ":i:" ++ (if b then codes "1" else codes "0"))
to_line key (int i) = key ++ (codes ":i:" ++ int_text i)
to_line key (float i) = key ++ (codes ":i:" ++ int_text i)
to_line key (text t) = key ++ (codes ":s:" ++ t)

-- next((x for x in templates if x.is_default), None)
unfoldable pub default_template : List RdpTemplate → Option RdpTemplate
default_template [] = none
default_template (t ∷ ts) = let rest = default_template ts in if t.is_default then some t else rest

-- sorted(templates, key=priority): templates of one priority stay in their order.
unfoldable pub insert : RdpTemplate → List RdpTemplate → List RdpTemplate
insert t [] = t ∷ []
insert t (u ∷ us) =
    let rest = insert t us in if leb t.priority u.priority then t ∷ u ∷ us else u ∷ rest

unfoldable pub sorted : List RdpTemplate → List RdpTemplate
unfolding insert
sorted [] = []
sorted (t ∷ ts) = insert t (sorted ts)

unfoldable pub contains : List Text → Text → Bool
unfolding text_eq
contains [] t = false
contains (u ∷ us) t = text_eq u t || contains us t

unfoldable pub intersects : List Text → List Text → Bool
unfolding contains
intersects [] set_ = false
intersects (t ∷ ts) set_ = contains set_ t || intersects ts set_

module _ (lower : Text → Text) where
  -- {str(v).strip().lower() for v in guids if str(v).strip()}
  unfoldable pub group_set : List Text → List Text
  unfolding strip
  group_set [] = []
  group_set (g ∷ gs) =
      let rest = group_set gs in if non_empty (strip g) then lower (strip g) ∷ rest else rest

  unfoldable pub lowered : List Text → List Text
  lowered [] = []
  lowered (g ∷ gs) = lower g ∷ lowered gs

  -- A template without groups is everybody's.
  unfoldable pub applies : List Text → RdpTemplate → Bool
  unfolding lowered intersects
  applies groups t = elim t.group_guids [
    | [] ↦ true
    | g ∷ gs ↦ intersects (lowered (g ∷ gs)) groups
  ]

  unfoldable pub merge_templates : List Text → Params → List RdpTemplate → Params
  unfolding applies update
  merge_templates groups d [] = d
  merge_templates groups d (t ∷ ts) =
      merge_templates groups
        (if t.is_default then d else if applies groups t then update d t.params else d) ts

  unfoldable pub with_default : Params → Option RdpTemplate → Params
  unfolding update
  with_default d none = d
  with_default d (some t) = update d t.params

  -- The entries that are set last.
  unfoldable pub system_params : (proxy_host : Text) (proxy_port : ℕ) (token : Text) → Params
  unfolding decimal
  system_params proxy_host proxy_port token =
      (codes "networkautodetect", int (pos 0))
      ∷ (codes "bandwidthautodetect", int (pos 1))
      ∷ (codes "connection type", int (pos 6))
      ∷ (codes "use redirection server name", int (pos 0))
      ∷ (codes "full address", text (proxy_host ++ (codes ":" ++ decimal proxy_port)))
      ∷ (codes "loadbalanceinfo", text token)
      ∷ (codes "negotiate security layer", int (pos 1))
      ∷ (codes "enablecredsspsupport", int (pos 0))
      ∷ (codes "authentication level", int (pos 2))
      ∷ []

  -- The templates are `none` without a database session.
  unfoldable pub chosen_params : Option (List RdpTemplate) → List Text → Params
  unfolding merge_templates with_default sorted default_template group_set default_rdp_params
  chosen_params none user_group_guids = default_rdp_params
  chosen_params (some templates) user_group_guids =
      merge_templates (group_set user_group_guids)
        (with_default default_rdp_params (default_template templates)) (sorted templates)

  unfoldable pub merged :
      Option (List RdpTemplate)
      → (user_group_guids : List Text) (proxy_host : Text) (proxy_port : ℕ) (token : Text) → Params
  unfolding chosen_params update system_params
  merged templates user_group_guids proxy_host proxy_port token =
      update (chosen_params templates user_group_guids) (system_params proxy_host proxy_port token)

  unfoldable pub lines : Params → Text
  unfolding to_line
  lines [] = []
  lines ((k, v) ∷ d) = to_line k v ++ (10 ∷ lines d)

  -- "\n".join(lines) + "\n", of a dict that is not empty.
  unfoldable pub build_rdp_content : Option (List RdpTemplate) → List Text → Text → ℕ → Text → Text
  unfolding merged lines
  build_rdp_content templates user_group_guids proxy_host proxy_port token =
      lines (merged templates user_group_guids proxy_host proxy_port token)
