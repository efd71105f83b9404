-- ===== src/Portal/Listed.antt =====
-- services/portal/routes/servers.py: the servers that are listed are those that are served.
use rdpproxy_v.Prelude.{
  ◌≡◌, refl, sym, ap, ◌∙◌, ◌↔◌, inl, inr, Bool, true, false, not, Option, none, some, List, [], ◌∷◌,
  Bool-cases, if◌then◌else◌,
}
use mathlib.Core.Path.{subst}
use mathlib.Core.Option.{some-injective}
use rdpproxy_v.Prelude.Holds.{Holds, holds_here, holds_more, holds-cons}
use rdpproxy_v.Prelude.Text.{Text, text_eq, text_eq_refl, text_eq_sound}
use rdpproxy_v.Admins.{answer, http_error}
use rdpproxy_v.Servers.{RdpServer}
use rdpproxy_v.Portal.{
  Entry, entry, enabled, find_server, server_visible, visible_entries, list_visible_servers,
  checked, checked_server,
}

-- The database's constraint: a tech_name is that of one row.
abbrev pub HasUniqueNames : List RdpServer → Type 0
HasUniqueNames rows =
    (a b : RdpServer) → Holds rows a → Holds rows b → text_eq a.tech_name b.tech_name ≡ true → a ≡ b

-- ORDER BY gives the same rows.
pub record IsReordering (sort_rows : List RdpServer → List RdpServer) : Type 0 where
  pub kept : (rows : List RdpServer) (s : RdpServer) → Holds rows s → Holds (sort_rows rows) s
  pub known : (rows : List RdpServer) (s : RdpServer) → Holds (sort_rows rows) s → Holds rows s

pub find_server-Holds :
    (rows : List RdpServer) (server_id : Text) (s : RdpServer)
    → find_server rows server_id ≡ some s
    → Holds rows s × (s.tech_name ≡ server_id)
unfolding find_server
find_server-Holds [] server_id s h = cc
find_server-Holds (r ∷ rows) server_id s h = elim (Bool-cases (text_eq r.tech_name server_id)) [
  | inl e ↦
      let same : r ≡ s = some-injective r s (sym (rw e refl) ∙ h) in
      (
        holds_here r s rows same,
        ap (λ (x : RdpServer). x.tech_name) (sym same) ∙ text_eq_sound r.tech_name server_id e,
      )
  | inr e ↦
      let (there, name) = find_server-Holds rows server_id s (sym (rw e refl) ∙ h) in
      (holds_more r s rows there, name)
]

Holds-find_server :
    (rows : List RdpServer) (s : RdpServer)
    → HasUniqueNames rows
    → Holds rows s
    → find_server rows s.tech_name ≡ some s
unfolding find_server
Holds-find_server [] s unique (i, h) = cc
Holds-find_server (r ∷ rows) s unique h = elim (Bool-cases (text_eq r.tech_name s.tech_name)) [
  | inl e ↦ rw e (ap some (unique r s (holds_here r r rows refl) h e))
  | inr e ↦ rw e (elim (holds-cons r s rows h) [
    | inl same ↦
        cc (
          e,
          text_eq_refl s.tech_name,
          ap (λ (x : RdpServer). text_eq x.tech_name s.tech_name) same,
        )
    | inr there ↦
        Holds-find_server rows s
          (λ a b ha hb. unique a b (holds_more r a rows ha) (holds_more r b rows hb)) there
  ])
]

enabled_on :
    (r : RdpServer) (rows : List RdpServer)
    → r.is_enabled ≡ true
    → enabled (r ∷ rows) ≡ r ∷ enabled rows
unfolding enabled
enabled_on r rows on = ap (λ (b : Bool). if b then r ∷ enabled rows else enabled rows) on

enabled_off :
    (r : RdpServer) (rows : List RdpServer)
    → r.is_enabled ≡ false
    → enabled (r ∷ rows) ≡ enabled rows
unfolding enabled
enabled_off r rows off = ap (λ (b : Bool). if b then r ∷ enabled rows else enabled rows) off

enabled-Holds :
    (rows : List RdpServer) (s : RdpServer)
    → Holds (enabled rows) s
    → Holds rows s × (s.is_enabled ≡ true)
unfolding enabled
enabled-Holds [] s (i, h) = cc
enabled-Holds (r ∷ rows) s h = elim (Bool-cases r.is_enabled) [
  | inl on ↦
      elim (holds-cons r s (enabled rows) (subst (λ xs. Holds xs s) (enabled_on r rows on) h)) [
        | inl same ↦
            (holds_here r s rows same, subst (λ (x : RdpServer). x.is_enabled ≡ true) same on)
        | inr there ↦
            (let (there', on') = enabled-Holds rows s there in (holds_more r s rows there', on'))
      ]
  | inr off ↦
      (let (there, on) =
          enabled-Holds rows s (subst (λ xs. Holds xs s) (enabled_off r rows off) h) in
        (holds_more r s rows there, on))
]

Holds-enabled :
    (rows : List RdpServer) (s : RdpServer)
    → Holds rows s
    → s.is_enabled ≡ true
    → Holds (enabled rows) s
unfolding enabled
Holds-enabled [] s (i, h) on = cc
Holds-enabled (r ∷ rows) s h on = elim (holds-cons r s rows h) [
  | inl same ↦
      subst (λ xs. Holds xs s)
        (sym (enabled_on r rows (subst (λ (x : RdpServer). x.is_enabled ≡ true) (sym same) on)))
        (holds_here r s (enabled rows) same)
  | inr there ↦ elim (Bool-cases r.is_enabled) [
    | inl on' ↦
        subst (λ xs. Holds xs s) (sym (enabled_on r rows on'))
          (holds_more r s (enabled rows) (Holds-enabled rows s there on))
    | inr off ↦
        subst (λ xs. Holds xs s) (sym (enabled_off r rows off)) (Holds-enabled rows s there on)
  ]
]

module _ (lower : Text → Text) (us : List Text) where
  abbrev Sees : RdpServer → Type 0
  Sees s = server_visible lower s.group_bindings us ≡ true

  visible_seen :
      (r : RdpServer) (rows : List RdpServer)
      → Sees r
      → visible_entries lower us (r ∷ rows) ≡ entry r ∷ visible_entries lower us rows
  unfolding visible_entries
  visible_seen r rows seen = rw seen refl

  visible_hidden :
      (r : RdpServer) (rows : List RdpServer)
      → server_visible lower r.group_bindings us ≡ false
      → visible_entries lower us (r ∷ rows) ≡ visible_entries lower us rows
  unfolding visible_entries
  visible_hidden r rows hidden = rw hidden refl

  visible_entries-Holds :
      (rows : List RdpServer) (e : Entry)
      → Holds (visible_entries lower us rows) e
      → (s : RdpServer) × Holds rows s × Sees s × (entry s ≡ e)
  unfolding visible_entries
  visible_entries-Holds [] e (i, h) = cc
  visible_entries-Holds (r ∷ rows) e h =
      elim (Bool-cases (server_visible lower r.group_bindings us)) [
        | inl seen ↦
            elim (holds-cons (entry r) e (visible_entries lower us rows)
              (subst (λ xs. Holds xs e) (visible_seen r rows seen) h)) [
                | inl same ↦ (r, holds_here r r rows refl, seen, same)
                | inr there ↦
                    (let (s, at, seen', same) = visible_entries-Holds rows e there in
                      (s, holds_more r s rows at, seen', same))
              ]
        | inr hidden ↦
            (let (s, at, seen, same) =
                visible_entries-Holds rows e
                  (subst (λ xs. Holds xs e) (visible_hidden r rows hidden) h) in
              (s, holds_more r s rows at, seen, same))
      ]

  Holds-visible_entries :
      (rows : List RdpServer) (s : RdpServer)
      → Holds rows s
      → Sees s
      → Holds (visible_entries lower us rows) (entry s)
  unfolding visible_entries
  Holds-visible_entries [] s (i, h) seen = cc
  Holds-visible_entries (r ∷ rows) s h seen = elim (holds-cons r s rows h) [
    | inl same ↦
        subst (λ xs. Holds xs (entry s))
          (sym (
            visible_seen r rows (
              subst (λ (x : RdpServer). server_visible lower x.group_bindings us ≡ true) (sym same)
                seen)))
          (holds_here (entry r) (entry s) (visible_entries lower us rows) (ap entry same))
    | inr there ↦ elim (Bool-cases (server_visible lower r.group_bindings us)) [
      | inl seen' ↦
          subst (λ xs. Holds xs (entry s)) (sym (visible_seen r rows seen'))
            (holds_more (entry r) (entry s) (visible_entries lower us rows)
              (Holds-visible_entries rows s there seen))
      | inr hidden ↦
          subst (λ xs. Holds xs (entry s)) (sym (visible_hidden r rows hidden))
            (Holds-visible_entries rows s there seen)
    ]
  ]

  pub checked-Sees :
      (found : Option RdpServer) (s : RdpServer)
      → checked lower us found ≡ answer s
      → (found ≡ some s) × (s.is_enabled ≡ true) × Sees s
  unfolding checked
  checked-Sees none s h = cc
  checked-Sees (some r) s h =
      passed r.is_enabled (server_visible lower r.group_bindings us) refl refl h
    where
      passed :
          (on seen : Bool)
          → r.is_enabled ≡ on
          → server_visible lower r.group_bindings us ≡ seen
          → (if not on then http_error 404 else if not seen then http_error 403 else answer r)
            ≡ answer s
          → (some r ≡ some s) × (s.is_enabled ≡ true) × Sees s
      passed true true e f h =
          let same : r ≡ s = cc h in
          (
            ap some same,
            subst (λ (x : RdpServer). x.is_enabled ≡ true) same e,
            subst (λ (x : RdpServer). server_visible lower x.group_bindings us ≡ true) same f,
          )
      passed true false e f h = cc
      passed false seen e f h = cc

  Sees-checked :
      (s : RdpServer) → s.is_enabled ≡ true → Sees s → checked lower us (some s) ≡ answer s
  unfolding checked
  Sees-checked s on seen = rw (on, seen) refl

  -- If no two rows have one tech_name, and ORDER BY gives the same rows in some order, then the
  -- list that a user sees has an entry exactly if the user's download of that entry's id passes
  -- the checks, and the server that it passes with is the entry's.
  pub list_visible_servers-checked_server :
      (sort_rows : List RdpServer → List RdpServer) (rows : List RdpServer) (e : Entry)
      → IsReordering sort_rows
      → HasUniqueNames rows
      → Holds (list_visible_servers lower sort_rows rows us) e
        ↔ ((s : RdpServer) × (checked_server lower rows e.id us ≡ answer s) × (entry s ≡ e))
  unfolding list_visible_servers checked_server
  list_visible_servers-checked_server sort_rows rows e reorder unique = (
    λ listed.
        (let (s, sorted, seen, same) = visible_entries-Holds (sort_rows (enabled rows)) e listed in
          let (there, on) = enabled-Holds rows s (reorder.known (enabled rows) s sorted) in
          (
            s,
            ap (checked lower us) (
                  subst (λ (x : Entry). find_server rows x.id ≡ some s) same
                    (Holds-find_server rows s unique there))
                ∙ Sees-checked s on seen,
            same,
          )),
    λ (s, passes, same).
        (let (found, on, seen) = checked-Sees (find_server rows e.id) s passes in
          subst (Holds (list_visible_servers lower sort_rows rows us)) same (
            Holds-visible_entries (sort_rows (enabled rows)) s
              (reorder.kept (enabled rows) s
                (Holds-enabled rows s (find_server-Holds rows e.id s found).0 on))
              seen)),
  )
