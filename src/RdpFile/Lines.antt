-- ===== src/RdpFile/Lines.antt =====
-- The lines of the .rdp file as it is written.

use mathlib.Core.List.{append_assoc}
use rdpproxy_v.Prelude.{
  ℕ, ◌≡◌, refl, sym, ap, ◌∙◌, ◌⊎◌, inl, inr, Bool, true, false, Option, none, some, List, [], ◌∷◌,
  ◌++◌, if◌then◌else◌,
}
use rdpproxy_v.Prelude.Text.{Text, codes, text_eq, text_eq_sound}
use rdpproxy_v.Proxy.Numerals.{decimal}
use rdpproxy_v.Dict
use rdpproxy_v.Dict.Lookup.{has_no_repeats, set-has_no_repeats}
use rdpproxy_v.RdpFile.{
  Param, Params, RdpTemplate, set, lookup, update, default_rdp_params, int_text, to_line,
  default_template, sorted, applies, group_set, merge_templates, with_default, system_params,
  chosen_params, merged, lines, build_rdp_content,
}
use rdpproxy_v.RdpFile.System.{lookup-merged}

-- A line of a text: it stands behind nothing or a line feed, and in front of one.
abbrev pub HasLine : Text → Text → Type 0
HasLine content line =
    (before : Text) × (after : Text) × (content ≡ before ++ (line ++ (10 ∷ after)))
    × ((before ≡ []) ⊎ ((earlier : Text) × (before ≡ earlier ++ (10 ∷ []))))

-- The lines that no template can change.
abbrev pub SystemLines : Text → Text → ℕ → Text → Type 0
SystemLines content host port token =
    HasLine content (codes "full address:s:" ++ (host ++ (codes ":" ++ decimal port)))
    × HasLine content (codes "loadbalanceinfo:s:" ++ token)
    × HasLine content (codes "negotiate security layer:i:1")
    × HasLine content (codes "enablecredsspsupport:i:0")
    × HasLine content (codes "authentication level:i:2")
    × HasLine content (codes "networkautodetect:i:0")
    × HasLine content (codes "bandwidthautodetect:i:1")
    × HasLine content (codes "connection type:i:6")
    × HasLine content (codes "use redirection server name:i:0")

module _ (lower : Text → Text) where
  -- An entry of the dict is a line of the text.
  pub lines-HasLine :
      (d : Params) (key : Text) (value : Param)
      → lookup d key ≡ some value
      → HasLine (lines lower d) (to_line key value)
  unfolding lines lookup
  lines-HasLine [] key value h = cc
  lines-HasLine ((k, v) ∷ d) key value h = at (text_eq k key) refl h (lines-HasLine d key value)
    where
      here : k ≡ key → v ≡ value → HasLine (to_line k v ++ (10 ∷ lines lower d)) (to_line key value)
      here p q = (
        [],
        lines lower d,
        ap (λ (t : Text). t ++ (10 ∷ lines lower d)) (ap (λ x. to_line x v) p ∙ ap (to_line key) q),
        inl refl,
      )

      later :
          HasLine (lines lower d) (to_line key value)
          → HasLine (to_line k v ++ (10 ∷ lines lower d)) (to_line key value)
      later (before, after, e, start) = (
        to_line k v ++ (10 ∷ before),
        after,
        ap (λ (t : Text). to_line k v ++ (10 ∷ t)) e
            ∙ sym (append_assoc (to_line k v) (10 ∷ before) (to_line key value ++ (10 ∷ after))),
        inr (elim start [
          | inl none_ ↦ (to_line k v, ap (λ (t : Text). to_line k v ++ (10 ∷ t)) none_)
          | inr (earlier, f) ↦ (
            to_line k v ++ (10 ∷ earlier),
            ap (λ (t : Text). to_line k v ++ (10 ∷ t)) f
                ∙ sym (append_assoc (to_line k v) (10 ∷ earlier) (10 ∷ [])),
          )
        ]),
      )

      at :
          (b : Bool)
          → text_eq k key ≡ b
          → (if b then some v else lookup d key) ≡ some value
          → (lookup d key ≡ some value → HasLine (lines lower d) (to_line key value))
          → HasLine (to_line k v ++ (10 ∷ lines lower d)) (to_line key value)
      at true e h rest = here (text_eq_sound k key e) (cc h)
      at false e h rest = later (rest h)

set-dict : (d : Params) (k : Text) (v : Param) → set d k v ≡ Dict.set k v d
unfolding set Dict.set
set-dict [] k v = refl
set-dict ((j, w) ∷ d) k v =
    ap (λ (x : Params). if text_eq j k then (j, v) ∷ d else (j, w) ∷ x) (set-dict d k v)

-- No key of a dict stands twice, whatever is put into it.
update-has_no_repeats :
    (d ps : Params) → has_no_repeats d ≡ true → has_no_repeats (update d ps) ≡ true
unfolding update
update-has_no_repeats d [] h = h
update-has_no_repeats d ((k, v) ∷ ps) h =
    update-has_no_repeats (set d k v) ps
      (ap has_no_repeats (set-dict d k v) ∙ set-has_no_repeats k v d h)

default_rdp_params-has_no_repeats : has_no_repeats default_rdp_params ≡ true
unfolding default_rdp_params has_no_repeats Dict.has text_eq
default_rdp_params-has_no_repeats = refl

module _ (lower : Text → Text) where
  with_default-has_no_repeats :
      (o : Option RdpTemplate) → has_no_repeats (with_default lower default_rdp_params o) ≡ true
  unfolding with_default
  with_default-has_no_repeats none = default_rdp_params-has_no_repeats
  with_default-has_no_repeats (some t) =
      update-has_no_repeats default_rdp_params t.params default_rdp_params-has_no_repeats

  merge_templates-has_no_repeats :
      (groups : List Text) (ts : List RdpTemplate) (d : Params)
      → has_no_repeats d ≡ true
      → has_no_repeats (merge_templates lower groups d ts) ≡ true
  unfolding merge_templates
  merge_templates-has_no_repeats groups [] d h = h
  merge_templates-has_no_repeats groups (t ∷ ts) d h =
      merge_templates-has_no_repeats groups ts _
        (at t.is_default (applies lower groups t) (update-has_no_repeats d t.params h))
    where
      at :
          (skip taken : Bool)
          → has_no_repeats (update d t.params) ≡ true
          → has_no_repeats (if skip then d else if taken then update d t.params else d) ≡ true
      at true taken more = h
      at false true more = more
      at false false more = h

  chosen_params-has_no_repeats :
      (templates : Option (List RdpTemplate)) (groups : List Text)
      → has_no_repeats (chosen_params lower templates groups) ≡ true
  unfolding chosen_params
  chosen_params-has_no_repeats none groups = default_rdp_params-has_no_repeats
  chosen_params-has_no_repeats (some ts) groups =
      merge_templates-has_no_repeats (group_set lower groups) (sorted ts)
        (with_default lower default_rdp_params (default_template ts))
        (with_default-has_no_repeats (default_template ts))

  merged-has_no_repeats :
      (templates : Option (List RdpTemplate)) (groups : List Text) (host : Text) (port : ℕ)
      (token : Text)
      → has_no_repeats (merged lower templates groups host port token) ≡ true
  unfolding merged
  merged-has_no_repeats templates groups host port token =
      update-has_no_repeats (chosen_params lower templates groups)
        (system_params lower host port token) (chosen_params-has_no_repeats templates groups)

  pub build_rdp_content-SystemLines :
      (templates : Option (List RdpTemplate)) (groups : List Text) (host : Text) (port : ℕ)
      (token : Text)
      → SystemLines (build_rdp_content lower templates groups host port token) host port token
        × ((d : Params) × (build_rdp_content lower templates groups host port token ≡ lines lower d)
            × (has_no_repeats d ≡ true))
  unfolding build_rdp_content system_params to_line int_text decimal
  build_rdp_content-SystemLines templates groups host port token =
      let d : Params = merged lower templates groups host port token in
      let (
        auto,
        (band, (type_, (redirect, (address, (balance, (layer, (credssp, (level, rest)))))))),
      ) =
        lookup-merged lower templates groups host port token in
      (
        (
          lines-HasLine lower d _ _ address,
          lines-HasLine lower d _ _ balance,
          lines-HasLine lower d _ _ layer,
          lines-HasLine lower d _ _ credssp,
          lines-HasLine lower d _ _ level,
          lines-HasLine lower d _ _ auto,
          lines-HasLine lower d _ _ band,
          lines-HasLine lower d _ _ type_,
          lines-HasLine lower d _ _ redirect,
        ),
        (d, refl, merged-has_no_repeats templates groups host port token),
      )
