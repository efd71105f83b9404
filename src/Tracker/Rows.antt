-- ===== src/Tracker/Rows.antt =====
-- What the statements of the tracker and of the administrators do to the rows of the history.
use rdpproxy_v.Prelude.{
  ℕ, ◌≤◌, ◌≡◌, refl, sym, ap, inl, inr, Bool, true, false, Bool-cases, ◌&&◌, not, Option, none,
  some, List, [], ◌∷◌, ◌++◌, map, ◌==◌, if◌then◌else◌, arith,
}
use mathlib.Core.Path.{subst}
use rdpproxy_v.Prelude.Text.{Text, codes, text_eq}
use rdpproxy_v.Tracker.{
  Status, active, closed, error, killed, is_active, is_killed, ConnectionHistory, World, Ended,
  closes, close_row, end_killed_row, is_killed_row, rowcount, finish_rows, is_stale, reconcile_row,
}
use rdpproxy_v.Tracker.Kill.{is_target, kill_row, kill_rows}

-- The row of a connection.
unfoldable pub row_of : Text → List ConnectionHistory → Option ConnectionHistory
row_of id [] = none
row_of id (row ∷ rows) = let rest = row_of id rows in if text_eq row.id id then some row else rest

-- A connection's end is final, and so is its kill.
pub record IsLater (s s' : Status) : Type 0 where
  pub kept : s ≡ killed → s' ≡ killed
  pub ended : is_active s ≡ false → is_active s' ≡ false

-- How far a connection is: active, ended, killed.
abbrev pub stage : Status → ℕ
stage active = 0
stage closed = 1
stage error = 1
stage killed = 2

ended_stage : (s : Status) → is_active s ≡ false → 1 ≤ stage s
ended_stage active h = absurd cc
ended_stage closed h = omega arith
ended_stage error h = omega arith
ended_stage killed h = omega arith

pub IsLater-stage : (s s' : Status) → IsLater s s' → stage s ≤ stage s'
IsLater-stage active s' l = omega arith
IsLater-stage closed s' l = ended_stage s' (l.ended refl)
IsLater-stage error s' l = ended_stage s' (l.ended refl)
IsLater-stage killed s' l = omega (arith, ap stage (l.kept refl))

-- Each connection's row is still there, with the same status or a later one.
abbrev pub Kept : List ConnectionHistory → List ConnectionHistory → Type 0
Kept rows rows' =
    (id : Text) (row : ConnectionHistory)
    → row_of id rows ≡ some row
    → (row' : ConnectionHistory) × (row_of id rows' ≡ some row') × IsLater row.status row'.status

abbrev pub KeptWorld : {S : Type 0} → World S → World S → Type 0
KeptWorld w w' = Kept w.history w'.history

pub same_status : (s : Status) → IsLater s s
same_status s = record { kept = λ e. e; ended = λ e. e }

pub Kept-refl : (rows : List ConnectionHistory) → Kept rows rows
Kept-refl rows id row e = (row, e, same_status row.status)

pub Kept-trans : (a b c : List ConnectionHistory) → Kept a b → Kept b c → Kept a c
Kept-trans a b c f g id row e =
    let (row', e', l) = f id row e in
    let (row'', e'', m) = g id row' e' in
    (row'', e'', record { kept = λ k. m.kept (l.kept k); ended = λ k. m.ended (l.ended k) })

if_some :
    {A : Type 0} (b : Bool) (x y z : Option A) (a : A)
    → (y ≡ some a → z ≡ some a)
    → (if b then x else y) ≡ some a
    → (if b then x else z) ≡ some a
if_some true x y z a h e = e
if_some false x y z a h e = h e

-- An INSERT behind the rows.
row_of-append :
    (rows more : List ConnectionHistory) (id : Text) (row : ConnectionHistory)
    → row_of id rows ≡ some row
    → row_of id (rows ++ more) ≡ some row
unfolding row_of
row_of-append [] more id row e = cc
row_of-append (r ∷ rows) more id row e =
    if_some (text_eq r.id id) (some r) (row_of id rows) (row_of id (rows ++ more)) row
      (row_of-append rows more id row) e

pub insert-Kept : (rows more : List ConnectionHistory) → Kept rows (rows ++ more)
insert-Kept rows more id row e = (row, row_of-append rows more id row e, same_status row.status)

-- What an UPDATE may do to a row.
pub record IsUpdate (f : ConnectionHistory → ConnectionHistory) : Type 0 where
  pub same_id : (row : ConnectionHistory) → (f row).id ≡ row.id
  pub later : (row : ConnectionHistory) → IsLater row.status (f row).status

pub update-Kept :
    (f : ConnectionHistory → ConnectionHistory) (rows : List ConnectionHistory)
    → IsUpdate f
    → Kept rows (map f rows)
unfolding row_of
update-Kept f [] u id row e = absurd cc
update-Kept f (r ∷ rows) u id row e =
    subst (λ i. Later (if text_eq i id then some (f r) else row_of id (map f rows)))
      (sym (u.same_id r)) (at (text_eq r.id id) (update-Kept f rows u id row) e)
  where
    Later : Option ConnectionHistory → Type 0
    Later o = (row' : ConnectionHistory) × (o ≡ some row') × IsLater row.status row'.status

    at :
        (b : Bool)
        → (row_of id rows ≡ some row → Later (row_of id (map f rows)))
        → (if b then some r else row_of id rows) ≡ some row
        → Later (if b then some (f r) else row_of id (map f rows))
    at true h e =
        let same : r ≡ row = ap (λ o. elim o [ some x ↦ x | none ↦ r ]) e in
        (f r, refl, subst (λ x. IsLater x.status (f r).status) same (u.later r))
    at false h e = h e

guarded-IsUpdate :
    (p : ConnectionHistory → Bool) (g : ConnectionHistory → ConnectionHistory)
    → ((row : ConnectionHistory) → (g row).id ≡ row.id)
    → ((row : ConnectionHistory) → p row ≡ true → IsLater row.status (g row).status)
    → IsUpdate (λ row. if p row then g row else row)
guarded-IsUpdate p g i l = record {
  same_id = λ row. elim (Bool-cases (p row)) [ inl e ↦ rw e (i row) | inr e ↦ rw e refl ];
  later = λ row. elim (Bool-cases (p row)) [
    | inl e ↦ rw e (l row e)
    | inr e ↦ rw e (same_status row.status)
  ];
}

from_active : (s s' : Status) → is_active s ≡ true → IsLater s s'
from_active active s' h = record { kept = λ e. cc; ended = λ e. cc }
from_active closed s' h = absurd cc
from_active error s' h = absurd cc
from_active killed s' h = absurd cc

from_unkilled : (s s' : Status) → not (is_killed s) ≡ true → is_active s' ≡ false → IsLater s s'
from_unkilled killed s' h e = absurd cc
from_unkilled active s' h e = record { kept = λ k. cc; ended = λ k. e }
from_unkilled closed s' h e = record { kept = λ k. cc; ended = λ k. e }
from_unkilled error s' h e = record { kept = λ k. cc; ended = λ k. e }

and_right : (a b : Bool) → (a && b) ≡ true → b ≡ true
and_right a b h = ground arith

and_middle : (a b c : Bool) → (a && b && c) ≡ true → b ≡ true
and_middle a b c h = ground arith

close_row-IsUpdate :
    (id : Text) (now : ℕ) (e : Ended) → is_active e.status ≡ false → IsUpdate (close_row id now e)
close_row-IsUpdate id now e h =
    guarded-IsUpdate (closes id) _ (λ row. refl)
      (λ row c. from_unkilled row.status e.status (and_right (text_eq row.id id) _ c) h)

end_killed_row-IsUpdate : (id : Text) (now : ℕ) (e : Ended) → IsUpdate (end_killed_row id now e)
end_killed_row-IsUpdate id now e =
    guarded-IsUpdate (is_killed_row id) _ (λ row. refl) (λ row c. same_status row.status)

pub reconcile_row-IsUpdate :
    (instance_id : Text) (now : ℕ) → IsUpdate (reconcile_row instance_id now)
reconcile_row-IsUpdate instance_id now =
    guarded-IsUpdate (is_stale instance_id) _ (λ row. refl)
      (λ row c. from_active row.status _ (and_middle (text_eq row.instance_id instance_id) _ _ c))

pub kill_row-IsUpdate : (reason id : Text) → IsUpdate (kill_row reason id)
kill_row-IsUpdate reason id =
    guarded-IsUpdate (is_target id) _ (λ row. refl)
      (λ row c. from_active row.status _ (and_right (text_eq row.id id) _ c))

pub finish_rows-Kept :
    (id : Text) (now : ℕ) (e : Ended) (rows : List ConnectionHistory)
    → is_active e.status ≡ false
    → Kept rows (finish_rows id now e rows)
unfolding finish_rows
finish_rows-Kept id now e rows h = elim (Bool-cases (rowcount (closes id) rows == 0)) [
  | inl z ↦ rw z (update-Kept (end_killed_row id now e) rows (end_killed_row-IsUpdate id now e))
  | inr z ↦ rw z (update-Kept (close_row id now e) rows (close_row-IsUpdate id now e h))
]

pub kill_rows-Kept :
    (cids : List Text) (rows : List ConnectionHistory) → Kept rows (kill_rows cids rows)
unfolding kill_rows
kill_rows-Kept [] rows = Kept-refl rows
kill_rows-Kept (cid ∷ cids) rows =
    let f = kill_row (codes "admin_kill_all") cid in
    Kept-trans rows (map f rows) _ (update-Kept f rows (kill_row-IsUpdate _ cid))
      (kill_rows-Kept cids (map f rows))
