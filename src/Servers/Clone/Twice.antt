-- ===== src/Servers/Clone/Twice.antt =====
-- services/admin/routes/servers.py: a second `clone_server` of a server, where a read of the source
-- row raises once a rollback has expired it.
use mathlib.Core.List.{append_assoc}
use rdpproxy_v.Prelude.{
  ℕ, ◌≡◌, refl, ap, ◌∙◌, Bool, true, false, ◌||◌, Option, none, some, [], ◌∷◌, ◌++◌, if◌then◌else◌,
  arith,
}
use rdpproxy_v.Prelude.Text.{Text, text_eq, text_eq_refl}
use rdpproxy_v.Errors.{Error, ok, err}
use rdpproxy_v.Admins.{Reply, answer, http_error}
use rdpproxy_v.Servers.{
  RdpServer, Commit, committed, integrity_error, data_error, commit, oversize, conflict, name_used,
  find_row, repeated,
}
use rdpproxy_v.Servers.Requests.{Servers, Outcome, ServerOut, named}
use rdpproxy_v.Servers.Clone.{
  copy, attempted, attempts, clone_server, clone_server-attempts, commit_passed,
}

-- Two rows of one name at the end of a table break its constraints.
conflict_same_name :
    (rows : Servers) (a b : RdpServer)
    → b.tech_name ≡ a.tech_name
    → conflict (rows ++ (a ∷ (b ∷ []))) ≡ true
unfolding conflict name_used
conflict_same_name [] a b same =
    let hit : text_eq b.tech_name a.tech_name ≡ true =
      ap (λ t. text_eq t a.tech_name) same ∙ text_eq_refl a.tech_name in
    rw hit refl
conflict_same_name (s ∷ rows) a b same =
    at (name_used s.tech_name (rows ++ (a ∷ (b ∷ [])))) (repeated s.group_bindings)
      (conflict_same_name rows a b same)
  where
    at : {rest : Bool} (used twice : Bool) → rest ≡ true → (used || (twice || rest)) ≡ true
    at used twice h = ground arith

find_row-append :
    (rows more : Servers) (sid : Text) (src : RdpServer)
    → find_row rows sid ≡ some src
    → find_row (rows ++ more) sid ≡ some src
unfolding find_row
find_row-append [] more sid src h = cc
find_row-append (s ∷ rows) more sid src h =
    at (text_eq s.id sid) h (find_row-append rows more sid src)
  where
    at :
        (b : Bool)
        → (if b then some s else find_row rows sid) ≡ some src
        → (find_row rows sid ≡ some src → find_row (rows ++ more) sid ≡ some src)
        → (if b then some s else find_row (rows ++ more) sid) ≡ some src
    at true h rest = h
    at false h rest = rest h

-- The row that a request names is still the one when rows follow.
named-append :
    (parse_uuid : Text → Option Text) (rows more : Servers) (server_id : Text) (src : RdpServer)
    → named parse_uuid rows server_id ≡ answer src
    → named parse_uuid (rows ++ more) server_id ≡ answer src
unfolding named
named-append parse_uuid rows more server_id src h = at (parse_uuid server_id) h
  where
    found :
        (sid : Text) (o : Option RdpServer)
        → find_row rows sid ≡ o
        → elim o as (λ _. Reply RdpServer) [ none ↦ http_error 404 | some s ↦ answer s ]
          ≡ answer src
        → find_row rows sid ≡ some src
    found sid none e h = cc
    found sid (some s) e h = e ∙ ap some (cc h)

    at :
        (o : Option Text)
        → elim o as (λ _. Reply RdpServer) [
          | none ↦ http_error 400
          | some sid ↦ elim (find_row rows sid) as (λ _. Reply RdpServer) [
            | none ↦ http_error 404
            | some s ↦ answer s
          ]
        ]
          ≡ answer src
        → elim o as (λ _. Reply RdpServer) [
          | none ↦ http_error 400
          | some sid ↦ elim (find_row (rows ++ more) sid) as (λ _. Reply RdpServer) [
            | none ↦ http_error 404
            | some s ↦ answer s
          ]
        ]
          ≡ answer src
    at none h = cc
    at (some sid) h =
        rw (find_row-append rows more sid src (found sid (find_row rows sid) refl h)) refl

module _ (cn_of : Text → Option Text) (e : Error) where
  -- Where a read of an expired row raises, only the first attempt can succeed.
  first_only :
      (new_id : ℕ → Text) (src : RdpServer) (rows rows' : Servers) (out : ServerOut)
      → attempts cn_of (some e) new_id 5 1 src rows ≡ (ok (answer out), rows')
      → let row = copy (new_id 1) 1 src in
        (rows ++ (row ∷ []) ≡ rows') × (commit row (rows ++ (row ∷ [])) ≡ committed)
  unfolding attempts attempted
  first_only new_id src rows rows' out h =
      let row = copy (new_id 1) 1 src in at (commit row (rows ++ (row ∷ []))) refl h
    where
      at :
          (c : Commit)
          → commit (copy (new_id 1) 1 src) (rows ++ (copy (new_id 1) 1 src ∷ [])) ≡ c
          → attempted cn_of (some e) new_id c (copy (new_id 1) 1 src) rows (err e, rows)
            ≡ (ok (answer out), rows')
          → (rows ++ (copy (new_id 1) 1 src ∷ []) ≡ rows')
            × (commit (copy (new_id 1) 1 src) (rows ++ (copy (new_id 1) 1 src ∷ [])) ≡ committed)
      at committed d h = (ap (λ (x : Outcome ServerOut). x.1) h, d)
      at integrity_error d h = cc
      at data_error d h = cc

  taken :
      (new_id : ℕ → Text) (src : RdpServer) (rows : Servers)
      → let row = copy (new_id 1) 1 src in
        oversize row ≡ false
        → conflict (rows ++ (row ∷ [])) ≡ true
        → attempts cn_of (some e) new_id 5 1 src rows ≡ (err e, rows)
  unfolding attempts attempted commit
  taken new_id src rows fits broken = rw (attempts, fits, broken) refl

  -- The id of a copy is not in its name or its sizes.
  fits_again :
      (i j : Text) (src : RdpServer)
      → oversize (copy i 1 src) ≡ false
      → oversize (copy j 1 src) ≡ false
  unfolding oversize copy
  fits_again i j src h = h

  same_name : (i j : Text) (src : RdpServer) → (copy j 1 src).tech_name ≡ (copy i 1 src).tech_name
  unfolding copy
  same_name i j src = refl

  -- Where a read of an expired row raises `e`, a server is cloned once: a second clone of it, on the
  -- table that the first left, fails with `e` and adds nothing, whatever ids are drawn, although
  -- the loop has four more names to try.
  pub clone_server_twice :
      (new_id new_id' : ℕ → Text) (parse_uuid : Text → Option Text) (rows rows' : Servers)
      (server_id : Text) (out : ServerOut)
      → clone_server cn_of (some e) new_id parse_uuid rows server_id ≡ (ok (answer out), rows')
      → clone_server cn_of (some e) new_id' parse_uuid rows' server_id ≡ (err e, rows')
  unfolding clone_server
  clone_server_twice new_id new_id' parse_uuid rows rows' server_id out h =
      let (src, found, ran) =
        clone_server-attempts cn_of (some e) new_id parse_uuid rows rows' server_id out h in
      let (after, done) = first_only new_id src rows rows' out ran in
      let first = copy (new_id 1) 1 src in
      let second = copy (new_id' 1) 1 src in
      let (fits, _) = commit_passed first (rows ++ (first ∷ [])) done in
      let broken : conflict ((rows ++ (first ∷ [])) ++ (second ∷ [])) ≡ true =
        ap conflict (append_assoc rows (first ∷ []) (second ∷ []))
        ∙ conflict_same_name rows first second (same_name (new_id 1) (new_id' 1) src) in
      rw (← after) (
        rw (clone_server, named-append parse_uuid rows (first ∷ []) server_id src found)
          (taken new_id' src (rows ++ (first ∷ [])) (fits_again (new_id 1) (new_id' 1) src fits)
            broken))
