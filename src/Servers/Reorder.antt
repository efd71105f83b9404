-- ===== src/Servers/Reorder.antt =====
-- services/admin/routes/servers.py: `reorder_servers`, one UPDATE per id of the new order.
use rdpproxy_v.Prelude.{
  ℕ, suc, ◌≡◌, refl, sym, ap, ◌∙◌, Bool, true, false, Option, none, some, List, [], ◌∷◌, map,
  if◌then◌else◌,
}
use rdpproxy_v.Prelude.Int.{pos}
use rdpproxy_v.Prelude.Text.{Text, text_eq}
use rdpproxy_v.Search.{strip}
use rdpproxy_v.Servers.{RdpServer}
use rdpproxy_v.Servers.Requests.{Servers}

-- UPDATE ... SET sort_order = i WHERE id = uid
abbrev pub ordered : Text → ℕ → RdpServer → RdpServer
ordered uid i s = if text_eq s.id uid then record s { sort_order = pos i } else s

-- A later place wins.
abbrev later_or : Option ℕ → Bool → ℕ → Option ℕ
later_or (some j) b i = some j
later_or none b i = if b then some i else none

abbrev pub placed_at : Option ℕ → RdpServer → RdpServer
placed_at none s = s
placed_at (some j) s = record s { sort_order = pos j }

step_placed :
    (o : Option ℕ) (b : Bool) (i : ℕ) (s : RdpServer)
    → placed_at o (if b then record s { sort_order = pos i } else s) ≡ placed_at (later_or o b i) s
step_placed none true i s = refl
step_placed none false i s = refl
step_placed (some j) true i s = refl
step_placed (some j) false i s = refl

ordered_id : (uid : Text) (i : ℕ) (s : RdpServer) → (ordered uid i s).id ≡ s.id
ordered_id uid i s = kept (text_eq s.id uid)
  where
    kept : (b : Bool) → (if b then record s { sort_order = pos i } else s).id ≡ s.id
    kept true = refl
    kept false = refl

map-map :
    (f g h : RdpServer → RdpServer) (rows : Servers)
    → ((s : RdpServer) → f (g s) ≡ h s)
    → map f (map g rows) ≡ map h rows
map-map f g h [] e = refl
map-map f g h (s ∷ rows) e =
    ap (λ x. x ∷ map f (map g rows)) (e s) ∙ ap (λ t. h s ∷ t) (map-map f g h rows e)

map_same :
    (f g : RdpServer → RdpServer) (rows : Servers)
    → ((s : RdpServer) → f s ≡ g s)
    → map f rows ≡ map g rows
map_same f g [] e = refl
map_same f g (s ∷ rows) e = ap (λ x. x ∷ map f rows) (e s) ∙ ap (λ t. g s ∷ t) (map_same f g rows e)

map_id : (rows : Servers) → map (λ s. s) rows ≡ rows
map_id [] = refl
map_id (s ∷ rows) = ap (λ t. s ∷ t) (map_id rows)

abbrev named_by : Option Text → Text → Bool
named_by none id = false
named_by (some uid) id = text_eq id uid

-- The pass of the loop for an id that is `o` as a UUID; one that is no UUID is skipped, and counts.
unfoldable pub reorder_one : Option Text → ℕ → Servers → Servers
unfolding text_eq
reorder_one none i rows = rows
reorder_one (some uid) i rows = map (ordered uid i) rows

module _ (parse_uuid : Text → Option Text) where
  unfoldable pub reorder_from : ℕ → List Text → Servers → Servers
  unfolding strip reorder_one
  reorder_from i [] rows = rows
  reorder_from i (sid ∷ order) rows =
      reorder_from (suc i) order (reorder_one (parse_uuid (strip sid)) i rows)

  unfoldable pub reorder_servers : Servers → List Text → Servers
  unfolding reorder_from
  reorder_servers rows order = reorder_from 0 order rows

  -- The last place at which an order names a row, counted from `i`.
  unfoldable pub last_place : ℕ → List Text → Text → Option ℕ
  unfolding strip text_eq
  last_place i [] id = none
  last_place i (sid ∷ order) id =
      later_or (last_place (suc i) order id) (named_by (parse_uuid (strip sid)) id) i

  abbrev pub placed : ℕ → List Text → RdpServer → RdpServer
  placed i order s = placed_at (last_place i order s.id) s

  stepped :
      (o : Option Text) (i : ℕ) (order : List Text) (rows : Servers)
      → map (placed (suc i) order) (reorder_one o i rows)
        ≡ map (λ s. placed_at (later_or (last_place (suc i) order s.id) (named_by o s.id) i) s) rows
  unfolding reorder_one
  stepped none i order rows =
      map_same _ _ rows (λ s. step_placed (last_place (suc i) order s.id) false i s)
  stepped (some uid) i order rows = map-map (placed (suc i) order) (ordered uid i) _ rows (λ s.
      ap (λ (id : Text). placed_at (last_place (suc i) order id) (ordered uid i s))
        (ordered_id uid i s)
      ∙ step_placed (last_place (suc i) order s.id) (text_eq s.id uid) i s)

  reorder_from-placed :
      (i : ℕ) (order : List Text) (rows : Servers)
      → reorder_from i order rows ≡ map (placed i order) rows
  unfolding reorder_from last_place
  reorder_from-placed i [] rows = sym (map_id rows)
  reorder_from-placed i (sid ∷ order) rows =
      reorder_from-placed (suc i) order (reorder_one (parse_uuid (strip sid)) i rows)
      ∙ stepped (parse_uuid (strip sid)) i order rows

  -- A reordering gives each row that the order names the last place at which it is named, counted
  -- from 0 with the ids that are no UUIDs included, and leaves everything else of all rows as it
  -- was.
  pub reorder_servers-placed :
      (rows : Servers) (order : List Text) → reorder_servers rows order ≡ map (placed 0 order) rows
  unfolding reorder_servers
  reorder_servers-placed rows order = reorder_from-placed 0 order rows
