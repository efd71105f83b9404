-- ===== src/Servers/Clone.antt =====
-- services/admin/routes/servers.py: `clone_server`, which tries five names. `expired` is what a read
-- of the source row's attributes raises once a rollback has expired them.
pub mod Twice
use mathlib.Core.Path.{subst}
use rdpproxy_v.Prelude.{
  ℕ, sym, zero, suc, ◌+◌, ◌≤◌, ◌<◌, ◌≡◌, ◌≢◌, Bool, true, false, All, arith, refl, ap, ◌⊎◌, inl,
  inr, Option, none, some, [], ◌∷◌, ◌++◌, ◌==◌, if◌then◌else◌,
}
use rdpproxy_v.Prelude.Text.{Text, codes}
use rdpproxy_v.Errors.{Error, ok, err, db_error}
use rdpproxy_v.Proxy.Numerals.{decimal}
use rdpproxy_v.Admins.{Reply, answer, http_error}
use rdpproxy_v.Servers.{
  RdpServer, Commit, committed, integrity_error, data_error, commit, oversize, conflict,
}
use rdpproxy_v.Servers.Requests.{Servers, Outcome, ServerOut, to_out, named}

-- The suffix of an attempt.
unfoldable pub copy_name : Text → ℕ → Text
unfolding decimal
copy_name tech_name attempt =
    tech_name ++ (codes "-copy" ++ (if attempt == 1 then [] else codes "-" ++ decimal attempt))

unfoldable pub copy : Text → ℕ → RdpServer → RdpServer
unfolding copy_name
copy new_id attempt src = record src {
  id = new_id;
  tech_name = copy_name src.tech_name attempt;
  display_name = src.display_name ++ codes " (копия)";
}

module _ (cn_of : Text → Option Text) (expired : Option Error) (new_id : ℕ → Text) where
  -- One attempt; `more` is what follows the rollback of an IntegrityError.
  unfoldable pub attempted : Commit → RdpServer → Servers → Outcome ServerOut → Outcome ServerOut
  attempted committed row rows more = (ok (answer (to_out cn_of row)), rows ++ (row ∷ []))
  attempted integrity_error row rows more = more
  attempted data_error row rows more = (err db_error, rows)

  -- The next attempt reads the source row again.
  abbrev pub reread : Option Error → Servers → Outcome ServerOut → Outcome ServerOut
  reread none rows more = more
  reread (some e) rows more = (err e, rows)

  -- After the last attempt nothing is read.
  abbrev pub after_rollback : (left : ℕ) → Servers → Outcome ServerOut → Outcome ServerOut
  after_rollback zero rows more = more
  after_rollback (suc left) rows more = reread expired rows more

  -- `left` attempts from `attempt` on; the first one reads the row that was just loaded.
  unfoldable pub attempts : (left attempt : ℕ) → RdpServer → Servers → Outcome ServerOut
  unfolding copy attempted commit
  attempts zero attempt src rows = (ok (http_error 409), rows)
  attempts (suc left) attempt src rows =
      let row = copy (new_id attempt) attempt src in
      attempted (commit row (rows ++ (row ∷ []))) row rows
        (after_rollback left rows (attempts left (suc attempt) src rows))

  unfoldable pub clone_server :
      (parse_uuid : Text → Option Text) → Servers → Text → Outcome ServerOut
  unfolding named attempts
  clone_server parse_uuid rows server_id = elim (named parse_uuid rows server_id) [
    | http_error code ↦ (ok (http_error code), rows)
    | answer src ↦ attempts 5 1 src rows
  ]

  -- An attempt whose commit went through, as the answer and the rows after show it.
  abbrev Added : ℕ → RdpServer → Servers → ServerOut → Servers → Type 0
  Added attempt src rows out rows' =
      let row = copy (new_id attempt) attempt src in
      (out ≡ to_out cn_of row) × (rows' ≡ rows ++ (row ∷ [])) × (commit row rows' ≡ committed)

  attempted-Added :
      (c : Commit) (attempt : ℕ) (src : RdpServer) (rows rows' : Servers) (more : Outcome ServerOut)
      (out : ServerOut)
      → commit
          (copy (new_id attempt) attempt src)
          (rows ++ (copy (new_id attempt) attempt src ∷ []))
        ≡ c
      → attempted c (copy (new_id attempt) attempt src) rows more ≡ (ok (answer out), rows')
      → (more ≡ (ok (answer out), rows')) ⊎ Added attempt src rows out rows'
  unfolding attempted
  attempted-Added committed attempt src rows rows' more out e h =
      let after : rows ++ (copy (new_id attempt) attempt src ∷ []) ≡ rows' =
        ap (λ (x : Outcome ServerOut). x.1) h in
      inr (
        cc (ap (λ (x : Outcome ServerOut). x.0) h),
        sym after,
        subst (λ t. commit (copy (new_id attempt) attempt src) t ≡ committed) after e,
      )
  attempted-Added integrity_error attempt src rows rows' more out e h = inl h
  attempted-Added data_error attempt src rows rows' more out e h = cc

  reread_answer :
      (o : Option Error) (rows rows' : Servers) (more : Outcome ServerOut) (out : ServerOut)
      → reread o rows more ≡ (ok (answer out), rows')
      → more ≡ (ok (answer out), rows')
  reread_answer none rows rows' more out h = h
  reread_answer (some e) rows rows' more out h = cc

  rollback_answer :
      (left : ℕ) (rows rows' : Servers) (more : Outcome ServerOut) (out : ServerOut)
      → after_rollback left rows more ≡ (ok (answer out), rows')
      → more ≡ (ok (answer out), rows')
  rollback_answer zero rows rows' more out h = h
  rollback_answer (suc left) rows rows' more out h = reread_answer expired rows rows' more out h

  attempts-Added :
      (left attempt : ℕ) (src : RdpServer) (rows rows' : Servers) (out : ServerOut)
      → attempts left attempt src rows ≡ (ok (answer out), rows')
      → (k : ℕ) × (attempt ≤ k) × (k < attempt + left) × Added k src rows out rows'
  unfolding attempts
  attempts-Added zero attempt src rows rows' out h = cc
  attempts-Added (suc left) attempt src rows rows' out h =
      let row = copy (new_id attempt) attempt src in
      elim (attempted-Added (commit row (rows ++ (row ∷ []))) attempt src rows rows'
        (after_rollback left rows (attempts left (suc attempt) src rows)) out refl h) [
          | inl later ↦
              let (k, low, high, added) = attempts-Added left (suc attempt) src rows rows' out (
                rollback_answer left rows rows' (attempts left (suc attempt) src rows) out later) in
              (k, omega arith, omega arith, added)
          | inr this ↦ (attempt, omega arith, omega arith, this)
        ]

  named_answer :
      (n : Reply RdpServer) (rows rows' : Servers) (out : ServerOut)
      → elim n as (λ _. Outcome ServerOut) [
        | http_error code ↦ (ok (http_error code), rows)
        | answer src ↦ attempts 5 1 src rows
      ]
        ≡ (ok (answer out), rows')
      → (src : RdpServer) × (n ≡ answer src) × (attempts 5 1 src rows ≡ (ok (answer out), rows'))
  named_answer (http_error code) rows rows' out h = cc
  named_answer (answer src) rows rows' out h = (src, refl, h)

  pub clone_server-attempts :
      (parse_uuid : Text → Option Text) (rows rows' : Servers) (server_id : Text) (out : ServerOut)
      → clone_server parse_uuid rows server_id ≡ (ok (answer out), rows')
      → (src : RdpServer) × (named parse_uuid rows server_id ≡ answer src)
        × (attempts 5 1 src rows ≡ (ok (answer out), rows'))
  unfolding clone_server
  clone_server-attempts parse_uuid rows rows' server_id out h =
      named_answer (named parse_uuid rows server_id) rows rows' out h

-- The commit of a row went through: it fits its columns, and no constraint is broken.
pub commit_passed :
    (row : RdpServer) (after : Servers)
    → commit row after ≡ committed
    → (oversize row ≡ false) × (conflict after ≡ false)
unfolding commit
commit_passed row after h = at (oversize row) (conflict after) refl refl h
  where
    at :
        (big broken : Bool)
        → oversize row ≡ big
        → conflict after ≡ broken
        → (if big then data_error else if broken then integrity_error else committed) ≡ committed
        → (oversize row ≡ false) × (conflict after ≡ false)
    at false false e f h = (e, f)
    at false true e f h = cc
    at true broken e f h = cc

-- The row has the attempt's name, says in its display name that it is a copy, and is otherwise like
-- the other row.
abbrev pub IsCopyOf : RdpServer → ℕ → RdpServer → Type 0
IsCopyOf src attempt row =
    (row.tech_name
      ≡ src.tech_name
        ++ (codes "-copy" ++ (if attempt == 1 then [] else codes "-" ++ decimal attempt)))
    × (row.display_name ≡ src.display_name ++ codes " (копия)")
    × (row.address ≡ src.address)
    × (row.port ≡ src.port)
    × (row.group_bindings ≡ src.group_bindings)
    × (row.is_enabled ≡ src.is_enabled)
    × (row.sort_order ≡ src.sort_order)

copy-IsCopyOf :
    (new_id : Text) (attempt : ℕ) (src : RdpServer) → IsCopyOf src attempt (copy new_id attempt src)
unfolding copy copy_name
copy-IsCopyOf new_id attempt src = (refl, refl, refl, refl, refl, refl, refl)

copied_id : (new_id : Text) (attempt : ℕ) (src : RdpServer) → (copy new_id attempt src).id ≡ new_id
unfolding copy
copied_id new_id attempt src = refl

-- If a clone is answered with a row, then the request named a row, and exactly one row was added,
-- which is the answer: with an id that no row had, with one of five names made from that of the
-- named row, with its display name marked as a copy's, and with its address, port, groups,
-- visibility and order. The row fits its columns, and no two rows of the table then have one name.
-- (The ids that are drawn are in no row.)
pub clone_server-IsCopyOf :
    (cn_of : Text → Option Text) (expired : Option Error) (new_id : ℕ → Text)
    (parse_uuid : Text → Option Text) (rows rows' : Servers) (server_id : Text) (out : ServerOut)
    → ((attempt : ℕ) → All (λ (other : RdpServer). other.id ≢ new_id attempt) rows)
    → clone_server cn_of expired new_id parse_uuid rows server_id ≡ (ok (answer out), rows')
    → (src : RdpServer) × (attempt : ℕ) × (row : RdpServer) × (named parse_uuid rows server_id
        ≡ answer src)
      × (1 ≤ attempt)
      × (attempt ≤ 5)
      × (rows' ≡ rows ++ (row ∷ []))
      × (out ≡ to_out cn_of row)
      × All (λ (other : RdpServer). other.id ≢ row.id) rows
      × IsCopyOf src attempt row
      × (oversize row ≡ false)
      × (conflict rows' ≡ false)
clone_server-IsCopyOf cn_of expired new_id parse_uuid rows rows' server_id out unused h =
    let (src, found, ran) =
      clone_server-attempts cn_of expired new_id parse_uuid rows rows' server_id out h in
    let (attempt, low, high, (same, after, done)) =
      attempts-Added cn_of expired new_id 5 1 src rows rows' out ran in
    let row = copy (new_id attempt) attempt src in
    let (fits, kept) = commit_passed row rows' done in
    (
      src,
      attempt,
      row,
      found,
      low,
      omega arith,
      after,
      same,
      subst (λ i. All (λ (other : RdpServer). other.id ≢ i) rows)
          (sym (copied_id (new_id attempt) attempt src)) (unused attempt),
      copy-IsCopyOf (new_id attempt) attempt src,
      fits,
      kept,
    )
