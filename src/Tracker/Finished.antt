-- ===== src/Tracker/Finished.antt =====
-- After `finish`, a connection has no active row.
use rdpproxy_v.Prelude.{
  Option, none, some, ℕ, suc, ◌≡◌, refl, Bool, true, false, Bool-cases, inl, inr, ◌&&◌, not, List,
  [], ◌∷◌, map, ◌==◌, if◌then◌else◌, arith,
}
use rdpproxy_v.Prelude.Text.{Text, text_eq}
use rdpproxy_v.Errors.{Error, ok, err}
use rdpproxy_v.Effect.{perform, when, ◌>>=◌}
use rdpproxy_v.Redis.{Redis}
use rdpproxy_v.Tracker.{
  World, TrackerConfig, Started, start, finish, Status, active, closed, error, killed, is_active,
  is_killed, ConnectionHistory, Ended, closes, close_row, is_killed_row, end_killed_row, rowcount,
  finish_rows,
}

abbrev pub is_open : Text → ConnectionHistory → Bool
is_open id row = text_eq row.id id && is_active row.status

-- No row of the connection is active.
abbrev pub NoneOpen : Text → List ConnectionHistory → Type 0
NoneOpen id rows = rowcount (is_open id) rows ≡ 0

-- An UPDATE after which the rows it matched and the rows it did not are not open.
update-NoneOpen :
    (id : Text) (f : ConnectionHistory → ConnectionHistory) (rows : List ConnectionHistory)
    → ((row : ConnectionHistory) → is_open id (f row) ≡ false)
    → NoneOpen id (map f rows)
unfolding rowcount
update-NoneOpen id f [] h = refl
update-NoneOpen id f (row ∷ rows) h = rw (h row) (update-NoneOpen id f rows h)

and_false : (a b : Bool) → b ≡ false → (a && b) ≡ false
and_false true b h = h
and_false false b h = refl

unclosed :
    (same : Bool) (s : Status) → (same && not (is_killed s)) ≡ false → (same && is_active s) ≡ false
unclosed false s h = refl
unclosed true active h = absurd cc
unclosed true closed h = refl
unclosed true error h = refl
unclosed true killed h = refl

close_row_shut :
    (id : Text) (now : ℕ) (e : Ended) (row : ConnectionHistory)
    → is_active e.status ≡ false
    → is_open id (close_row id now e row) ≡ false
close_row_shut id now e row h = elim (Bool-cases (closes id row)) [
  | inl c ↦ rw c (and_false (text_eq row.id id) _ h)
  | inr c ↦ rw c (unclosed (text_eq row.id id) row.status c)
]

end_killed_row_shut :
    (id : Text) (now : ℕ) (e : Ended) (row : ConnectionHistory)
    → closes id row ≡ false
    → is_open id (end_killed_row id now e row) ≡ false
end_killed_row_shut id now e row h = elim (Bool-cases (is_killed_row id row)) [
  | inl c ↦ rw c (unclosed (text_eq row.id id) row.status h)
  | inr c ↦ rw c (unclosed (text_eq row.id id) row.status h)
]

killed_only :
    (id : Text) (now : ℕ) (e : Ended) (rows : List ConnectionHistory)
    → rowcount (closes id) rows ≡ 0
    → NoneOpen id (map (end_killed_row id now e) rows)
unfolding rowcount
killed_only id now e [] h = refl
killed_only id now e (row ∷ rows) h = at (closes id row) refl (killed_only id now e rows) h
  where
    at :
        (b : Bool)
        → closes id row ≡ b
        → (rowcount (closes id) rows ≡ 0 → NoneOpen id (map (end_killed_row id now e) rows))
        → (if b then suc (rowcount (closes id) rows) else rowcount (closes id) rows) ≡ 0
        → NoneOpen id (map (end_killed_row id now e) (row ∷ rows))
    at true c later h = absurd (omega arith)
    at false c later h = rw (end_killed_row_shut id now e row c) (later h)

-- Whatever rows there are, after `finish` with a status other than `active` the connection has no
-- active row.
pub finish_rows-NoneOpen :
    (id : Text) (now : ℕ) (e : Ended) (rows : List ConnectionHistory)
    → is_active e.status ≡ false
    → NoneOpen id (finish_rows id now e rows)
unfolding finish_rows
finish_rows-NoneOpen id now e rows h = elim (Bool-cases (rowcount (closes id) rows == 0)) [
  | inl z ↦ rw z (killed_only id now e rows (ground arith))
  | inr z ↦
      rw z (update-NoneOpen id (close_row id now e) rows (λ row. close_row_shut id now e row h))
]

module _ (R : Redis) (parse_uuid : Text → Option Text) (cfg : TrackerConfig)
    (has_db : cfg.has_db ≡ true) where
  when_redis :
      (b : Bool) (e : Option Error) (f : R.State → R.State) (w : World R.State)
      → (when b (perform e (λ (w : World R.State). record w { redis = f w.redis })) w).1.history
        ≡ w.history
  when_redis true none f w = refl
  when_redis true (some e) f w = refl
  when_redis false e f w = refl

  -- A `finish` whose commit succeeds.
  pub finish-history :
      (on_delete : Option Error) (now : ℕ) (id : Text) (e : Ended) (w : World R.State)
      → (finish R parse_uuid cfg none on_delete now id e w).1.history
        ≡ finish_rows id now e w.history
  unfolding finish ◌>>=◌
  finish-history on_delete now id e w = rw has_db (when_redis cfg.has_redis on_delete _ _)

  -- A `start` whose commit raises, and one in which nothing raises.
  pub start_raises :
      (x : Error) (on_set : Option Error) (cid started_at : Text) (a : Started) (w : World R.State)
      → start R parse_uuid cfg (some x) on_set cid started_at a w ≡ (err x, w)
  unfolding start ◌>>=◌
  start_raises x on_set cid started_at a w = rw has_db refl

  pub start_succeeds :
      (cid started_at : Text) (a : Started) (w : World R.State)
      → (w' : World R.State) × (start R parse_uuid cfg none none cid started_at a w ≡ (ok cid, w'))
  unfolding start ◌>>=◌
  start_succeeds cid started_at a w =
      rw has_db
        (elim (Bool-cases cfg.has_redis) [ inl b ↦ rw b (_, refl) | inr b ↦ rw b (_, refl) ])
