-- ===== src/RdpFile/System.antt =====
-- The entries of a .rdp file that no template can change.
use rdpproxy_v.Prelude.{
  ℕ, ◌≡◌, refl, sym, ap, ◌∙◌, Bool, true, false, Option, some, List, [], ◌∷◌, if◌then◌else◌, All,
  Bool-cases, inl, inr,
}
use rdpproxy_v.Prelude.Text.{Text, text_eq, text_eq_refl, text_eq_sound}
use rdpproxy_v.RdpFile.{
  Param, Params, RdpTemplate, set, lookup, update, system_params, chosen_params, merged,
}

twice :
    (b : Bool) (v w : Param) (o : Option Param)
    → (if b then some v else o) ≡ (if b then some v else if b then some w else o)
twice true v w o = refl
twice false v w o = refl

lookup-set :
    (d : Params) (k : Text) (v : Param) (j : Text)
    → lookup (set d k v) j ≡ (if text_eq k j then some v else lookup d j)
unfolding lookup set
lookup-set [] k v j = refl
lookup-set ((l, w) ∷ d) k v j = elim (Bool-cases (text_eq l k)) [
  | inl e ↦
      let same : text_eq l j ≡ text_eq k j = ap (λ t. text_eq t j) (text_eq_sound l k e) in
      rw e (rw same (twice (text_eq k j) v w (lookup d j)))
  | inr e ↦ rw e (
      rw (lookup-set d k v j) (elim (Bool-cases (text_eq k j)) [
        | inl f ↦
            let apart : text_eq l j ≡ false =
              sym (ap (λ t. text_eq l t) (text_eq_sound k j f)) ∙ e in
            rw (f, apart) refl
        | inr f ↦ rw f refl
      ]))
]

lookup-update_other :
    (ps d : Params) (j : Text)
    → All (λ (e : Text × Param). text_eq e.0 j ≡ false) ps
    → lookup (update d ps) j ≡ lookup d j
unfolding update
lookup-update_other [] d j h = refl
lookup-update_other ((k, v) ∷ ps) d j h =
    lookup-update_other ps (set d k v) j h.1 ∙ (lookup-set d k v j ∙ (rw h.0 refl))

-- No key stands twice in a list of entries.
abbrev pub Distinct : Params → Type 0
Distinct [] = Unit
Distinct ((k, v) ∷ ps) = All (λ (e : Text × Param). text_eq e.0 k ≡ false) ps × Distinct ps

lookup-update :
    (ps d : Params)
    → Distinct ps
    → All (λ (e : Text × Param). lookup (update d ps) e.0 ≡ some e.1) ps
unfolding update
lookup-update [] d h = tt
lookup-update ((k, v) ∷ ps) d h = (
  lookup-update_other ps (set d k v) k h.0 ∙ (lookup-set d k v k ∙ (rw (text_eq_refl k) refl)),
  lookup-update ps (set d k v) h.1,
)

module _ (lower : Text → Text) where
  system_params-Distinct :
      (host : Text) (port : ℕ) (token : Text) → Distinct (system_params lower host port token)
  unfolding system_params text_eq
  system_params-Distinct host port token = (
    (refl, (refl, (refl, (refl, (refl, (refl, (refl, (refl, tt)))))))),
    (
      (refl, (refl, (refl, (refl, (refl, (refl, (refl, tt))))))),
      (
        (refl, (refl, (refl, (refl, (refl, (refl, tt)))))),
        (
          (refl, (refl, (refl, (refl, (refl, tt))))),
          (
            (refl, (refl, (refl, (refl, tt)))),
            ((refl, (refl, (refl, tt))), ((refl, (refl, tt)), ((refl, tt), (tt, tt)))),
          ),
        ),
      ),
    ),
  )

  pub lookup-merged :
      (templates : Option (List RdpTemplate)) (groups : List Text) (host : Text) (port : ℕ)
      (token : Text)
      → All
          (λ (e : Text × Param).
            lookup (merged lower templates groups host port token) e.0 ≡ some e.1)
          (system_params lower host port token)
  unfolding merged
  lookup-merged templates groups host port token =
      lookup-update (system_params lower host port token) (chosen_params lower templates groups)
        (system_params-Distinct host port token)
