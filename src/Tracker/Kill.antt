-- ===== src/Tracker/Kill.antt =====
-- services/admin/routes/sessions.py: how an administrator ends sessions. `call` numbers the calls
-- of one request, from 0, and gives the exception that one raises.
use rdpproxy_v.Prelude.{
  ℕ, suc, Bool, ◌&&◌, Option, none, some, List, [], ◌∷◌, map, length, ◌==◌, if◌then◌else◌,
}
use rdpproxy_v.Prelude.Text.{Text, codes, text_eq, non_empty}
use rdpproxy_v.Errors.{Error, ok, err, value_error}
use rdpproxy_v.Effect.{Action, pure, lift, perform, ask, ◌>>=◌, ◌>>◌}
use rdpproxy_v.Redis.{Redis}
use rdpproxy_v.Redis.Values
use rdpproxy_v.Redis.Keys
use rdpproxy_v.Tracker.{ConnectionHistory, World, is_active, killed}

-- The WHERE of the UPDATE, and what it sets.
abbrev pub is_target : Text → ConnectionHistory → Bool
is_target id row = text_eq row.id id && is_active row.status

abbrev pub kill_row : (reason id : Text) → ConnectionHistory → ConnectionHistory
kill_row reason id row =
    if is_target id row
    then record row { status = killed; disconnect_reason = some reason }
    else row

-- `str.split(":")`
unfoldable pub split_colon : Text → List Text
split_colon [] = [] ∷ []
split_colon (c ∷ s) =
    let rest = split_colon s in
    if c == 58 then [] ∷ rest else elim rest [ [] ↦ (c ∷ []) ∷ [] | p ∷ ps ↦ (c ∷ p) ∷ ps ]

-- parts[3], or `none` where there are fewer than four parts.
unfoldable pub fourth_part : Text → Option Text
unfolding split_colon
fourth_part k = elim (split_colon k) [ _ ∷ _ ∷ _ ∷ p ∷ _ ↦ some p | _ ↦ none ]

-- What `connection_id` may hold: the token, as text.
abbrev pub raw_token_of : Option Values.Value → Option Text
raw_token_of (some (Values.text t)) = if non_empty t then some t else none
raw_token_of _ = none

pub data Killed : Type 0 where
  invalid_connection_id done : Killed

unfoldable pub kill_rows : List Text → List ConnectionHistory → List ConnectionHistory
kill_rows [] rows = rows
kill_rows (cid ∷ cids) rows = kill_rows cids (map (kill_row (codes "admin_kill_all") cid) rows)

module _ (R : Redis) (parse_uuid : Text → Option Text) where
  open R use {State, get, setex, delete}

  abbrev redis_call : Option Error → (State → State) → Action (World State) (Unit {0})
  redis_call e f = perform e (λ w. record w { redis = f w.redis })

  -- `if raw_token:`
  unfoldable pub drop_found :
      (call : ℕ → Option Error) → Text → Option Text → Action (World State) (Unit {0})
  drop_found call id none = pure tt
  drop_found call id (some t) = (do
    redis_call (call 3) (λ s. delete s (Keys.token t))
    redis_call (call 4) (λ s. delete s (Keys.conn_token id)))

  -- The token that the connection came with, and the key to it.
  unfoldable pub drop_token : (call : ℕ → Option Error) → Text → Action (World State) (Unit {0})
  unfolding drop_found
  drop_token call id = (do
    raw_token ← ask (call 2) (λ w. raw_token_of (get w.redis (Keys.conn_token id)))
    drop_found call id raw_token)

  -- The kill key and the active key.
  unfoldable pub mark_killed :
      (call : ℕ → Option Error) → (id active_key : Text) → Action (World State) (Unit {0})
  mark_killed call id active_key = (do
    redis_call (call 0)
        (λ s. setex s (Keys.kill_session id) Keys.kill_ttl (Values.text (codes "1")))
    redis_call (call 1) (λ s. delete s active_key))

  -- `cid = uuid.UUID(connection_id)`, and the request behind it. The keys in Redis are those of the
  -- text in the path, the row is that of its UUID.
  unfoldable pub kill_parsed :
      (call : ℕ → Option Error)
      → (instance_id connection_id : Text) → Option Text
      → Action (World State) Killed
  unfolding drop_token mark_killed
  kill_parsed call instance_id connection_id none = pure invalid_connection_id
  kill_parsed call instance_id connection_id (some cid) = (do
    mark_killed call connection_id (Keys.active_session instance_id connection_id)
    drop_token call connection_id
    perform (call 5) (λ w. record w { history = map (kill_row (codes "admin_kill") cid) w.history })
    pure done)

  unfoldable pub kill_session :
      (call : ℕ → Option Error) → (instance_id connection_id : Text) → Action (World State) Killed
  unfolding kill_parsed
  kill_session call instance_id connection_id =
      kill_parsed call instance_id connection_id (parse_uuid connection_id)

  -- The row of the UPDATE, which is in a transaction whose commit comes last.
  abbrev pub executes : Text → Action (World State) Text
  executes connection_id =
      lift (elim (parse_uuid connection_id) [ none ↦ err value_error | some cid ↦ ok cid ])

  -- One round of the loop over the active keys, with the rounds after it. The result is the rows to
  -- update, in their order.
  unfoldable pub kill_round :
      (call : ℕ → Option Error)
      → Text
      → Action (World State) (List Text)
      → Option Text
      → Action (World State) (List Text)
  unfolding drop_token mark_killed
  kill_round call k rest none = rest
  kill_round call k rest (some id) = (do
    mark_killed call id k
    drop_token call id
    cid ← executes id
    cids ← rest
    pure (cid ∷ cids))

  -- `calls` are those of the rounds.
  unfoldable pub kill_each :
      (calls : ℕ → ℕ → Option Error) → ℕ → List Text → Action (World State) (List Text)
  unfolding kill_round fourth_part
  kill_each calls n [] = pure []
  kill_each calls n (k ∷ ks) = kill_round (calls n) k (kill_each calls (suc n) ks) (fourth_part k)

  -- `active_keys` is what SCAN gives for `rdp:active:*`.
  unfoldable pub kill_all_sessions :
      (calls : ℕ → ℕ → Option Error) (on_commit : Option Error)
      → (active_keys : List Text) → Action (World State) ℕ
  unfolding kill_each kill_rows
  kill_all_sessions calls on_commit active_keys = (do
    cids ← kill_each calls 0 active_keys
    perform on_commit (λ w. record w { history = kill_rows cids w.history })
    pure (length cids))
