-- ===== src/Servers/Rows.antt =====
-- The ports and the constraints of a table, as its rows are read, added, changed and deleted.
use mathlib.Core.Path.{subst}
use rdpproxy_v.Prelude.{
  ◌≡◌, refl, inl, inr, Bool, true, false, ◌||◌, Option, none, some, [], ◌∷◌, ◌++◌, map, All,
  Bool-cases, if◌then◌else◌, arith,
}
use rdpproxy_v.Prelude.Text.{Text, text_eq}
use rdpproxy_v.Admins.{Reply, answer, http_error}
use rdpproxy_v.Servers.{RdpServer, find_row, change_row, delete_row, name_used, repeated, conflict}
use rdpproxy_v.Servers.Address.Bounds.{IsPort}
use rdpproxy_v.Servers.Requests.{Servers, named}

abbrev pub HavePorts : Servers → Type 0
HavePorts = All (λ (s : RdpServer). IsPort s.port)

-- Every row has a port that a connection can be made to, and the constraints hold: the names
-- differ, and no row has one group twice.
abbrev pub IsSound : Servers → Type 0
IsSound rows = HavePorts rows × (conflict rows ≡ false)

none_of : (a b c : Bool) → (a || (b || c)) ≡ false → (a ≡ false) × (b ≡ false) × (c ≡ false)
none_of a b c h = (ground arith, ground arith, ground arith)

either_false : (a b : Bool) → (a || b) ≡ false → (a ≡ false) × (b ≡ false)
either_false a b h = (ground arith, ground arith)

pub find_row-IsPort :
    (rows : Servers) (uid : Text) (s : RdpServer)
    → HavePorts rows
    → find_row rows uid ≡ some s
    → IsPort s.port
unfolding find_row
find_row-IsPort [] uid s h e = cc
find_row-IsPort (r ∷ rows) uid s h e = at (text_eq r.id uid) (find_row-IsPort rows uid s h.1) e
  where
    at :
        (b : Bool)
        → (find_row rows uid ≡ some s → IsPort s.port)
        → (if b then some r else find_row rows uid) ≡ some s
        → IsPort s.port
    at true later e = let same : r ≡ s = cc e in subst (λ (x : RdpServer). IsPort x.port) same h.0
    at false later e = later e

pub named-IsPort :
    (parse_uuid : Text → Option Text) (rows : Servers) (server_id : Text) (s : RdpServer)
    → HavePorts rows
    → named parse_uuid rows server_id ≡ answer s
    → IsPort s.port
unfolding named
named-IsPort parse_uuid rows server_id s h e = at (parse_uuid server_id) e
  where
    found :
        (sid : Text) (o : Option RdpServer)
        → find_row rows sid ≡ o
        → elim o as (λ _. Reply RdpServer) [ none ↦ http_error 404 | some s ↦ answer s ] ≡ answer s
        → IsPort s.port
    found sid none e h' = cc
    found sid (some r) e h' =
        let same : r ≡ s = cc h' in
        subst (λ (x : RdpServer). IsPort x.port) same (find_row-IsPort rows sid r h e)

    at :
        (o : Option Text)
        → elim o as (λ _. Reply RdpServer) [
          | none ↦ http_error 400
          | some sid ↦ elim (find_row rows sid) as (λ _. Reply RdpServer) [
            | none ↦ http_error 404
            | some s ↦ answer s
          ]
        ]
          ≡ answer s
        → IsPort s.port
    at none e = cc
    at (some sid) e = found sid (find_row rows sid) refl e

pub append-HavePorts :
    (rows : Servers) (s : RdpServer) → HavePorts rows → IsPort s.port → HavePorts (rows ++ (s ∷ []))
append-HavePorts [] s h p = (p, tt)
append-HavePorts (r ∷ rows) s h p = (h.0, append-HavePorts rows s h.1 p)

pub change_row-HavePorts :
    (rows : Servers) (uid : Text) (f : RdpServer → RdpServer)
    → HavePorts rows
    → ((s : RdpServer) → IsPort s.port → IsPort (f s).port)
    → HavePorts (change_row rows uid f)
unfolding change_row
change_row-HavePorts [] uid f h keeps = tt
change_row-HavePorts (s ∷ rows) uid f h keeps = elim (Bool-cases (text_eq s.id uid)) [
  | inl e ↦ rw e (keeps s h.0, h.1)
  | inr e ↦ rw e (h.0, change_row-HavePorts rows uid f h.1 keeps)
]

pub delete_row-HavePorts :
    (rows : Servers) (uid : Text) → HavePorts rows → HavePorts (delete_row rows uid)
unfolding delete_row
delete_row-HavePorts [] uid h = tt
delete_row-HavePorts (s ∷ rows) uid h = elim (Bool-cases (text_eq s.id uid)) [
  | inl e ↦ rw e h.1
  | inr e ↦ rw e (h.0, delete_row-HavePorts rows uid h.1)
]

name_used-delete_row :
    (name : Text) (rows : Servers) (uid : Text)
    → name_used name rows ≡ false
    → name_used name (delete_row rows uid) ≡ false
unfolding delete_row name_used
name_used-delete_row name [] uid h = refl
name_used-delete_row name (s ∷ rows) uid h = elim (Bool-cases (text_eq s.id uid)) [
  | inl e ↦ rw e (either_false (text_eq s.tech_name name) _ h).1
  | inr e ↦
      rw (e, (either_false (text_eq s.tech_name name) _ h).0)
        (name_used-delete_row name rows uid (either_false (text_eq s.tech_name name) _ h).1)
]

pub conflict-delete_row :
    (rows : Servers) (uid : Text) → conflict rows ≡ false → conflict (delete_row rows uid) ≡ false
unfolding delete_row conflict
conflict-delete_row [] uid h = refl
conflict-delete_row (s ∷ rows) uid h =
    let (name, groups, rest) =
      none_of (name_used s.tech_name rows) (repeated s.group_bindings) (conflict rows) h in
    elim (Bool-cases (text_eq s.id uid)) [
      | inl e ↦ rw e rest
      | inr e ↦
          rw
            (
              e,
              name_used-delete_row s.tech_name rows uid name,
              groups,
              conflict-delete_row rows uid rest,
            )
            refl
    ]

-- A change of rows that leaves their names and groups alone.
abbrev pub KeepsKeys : (RdpServer → RdpServer) → Type 0
KeepsKeys f =
    (s : RdpServer) → ((f s).tech_name ≡ s.tech_name) × ((f s).group_bindings ≡ s.group_bindings)

name_used-change_row :
    (name : Text) (rows : Servers) (uid : Text) (f : RdpServer → RdpServer)
    → KeepsKeys f
    → name_used name (change_row rows uid f) ≡ name_used name rows
unfolding change_row name_used
name_used-change_row name [] uid f k = refl
name_used-change_row name (s ∷ rows) uid f k = elim (Bool-cases (text_eq s.id uid)) [
  | inl e ↦ rw (e, (k s).0) refl
  | inr e ↦ rw (e, name_used-change_row name rows uid f k) refl
]

pub conflict-change_row :
    (rows : Servers) (uid : Text) (f : RdpServer → RdpServer)
    → KeepsKeys f
    → conflict (change_row rows uid f) ≡ conflict rows
unfolding change_row conflict
conflict-change_row [] uid f k = refl
conflict-change_row (s ∷ rows) uid f k = elim (Bool-cases (text_eq s.id uid)) [
  | inl e ↦ rw (e, (k s).0, (k s).1) refl
  | inr e ↦
      rw (e, name_used-change_row s.tech_name rows uid f k, conflict-change_row rows uid f k) refl
]

name_used-map :
    (name : Text) (rows : Servers) (f : RdpServer → RdpServer)
    → KeepsKeys f
    → name_used name (map f rows) ≡ name_used name rows
unfolding name_used
name_used-map name [] f k = refl
name_used-map name (s ∷ rows) f k = rw ((k s).0, name_used-map name rows f k) refl

pub conflict-map :
    (rows : Servers) (f : RdpServer → RdpServer)
    → KeepsKeys f
    → conflict (map f rows) ≡ conflict rows
unfolding conflict
conflict-map [] f k = refl
conflict-map (s ∷ rows) f k =
    rw ((k s).0, (k s).1, name_used-map s.tech_name rows f k, conflict-map rows f k) refl
