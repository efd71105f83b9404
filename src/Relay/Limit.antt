-- ===== src/Relay/Limit.antt =====
-- services/rdp_relay/main.py: the semaphore that limits the connections, and its change when the
-- settings are reloaded.
use rdpproxy_v.Prelude.{
  ℕ, ◌+◌, ◌-◌, ◌<◌, ◌≤◌, ◌≡◌, Bool, true, false, ltb, ◌==◌, if◌then◌else◌, arith,
}

-- The semaphore's value, `conn_limit[0]` and the connections inside `async with`.
pub record Limiter : Type 0 where
  pub permits : ℕ
  pub conn_limit : ℕ
  pub active : ℕ

unfoldable pub initial : ℕ → Limiter
initial max_conn = record { permits = max_conn; conn_limit = max_conn; active = 0 }

-- `_limited_handler`: a connection is rejected if the semaphore is locked, else admitted.
unfoldable pub connect : Limiter → Limiter × Bool
connect s =
    if s.permits == 0
    then (s, false)
    else (record s { permits = s.permits - 1; active = s.active + 1 }, true)

-- A handler that was admitted ends.
unfoldable pub disconnect : Limiter → Limiter
disconnect s = record s { permits = s.permits + 1; active = s.active - 1 }

-- The last part of `_settings_listener`: one `release` for each connection more.
unfoldable pub reload : Limiter → ℕ → Limiter
reload s new_max = if new_max == s.conn_limit then s else record s {
  permits = if ltb s.conn_limit new_max then s.permits + (new_max - s.conn_limit) else s.permits;
  conn_limit = new_max;
}

-- What can happen: a client connects, a handler ends, the limit is set to `new_max`.
pub data Step : Limiter → Limiter → Type 0 where
  connects : (s : Limiter) → Step s (connect s).0
  disconnects : (s : Limiter) → 0 < s.active → Step s (disconnect s)
  reloads : (s : Limiter) (new_max : ℕ) → Step s (reload s new_max)

-- Steps in which the limit is never lowered.
pub data Grows (s : Limiter) : Limiter → Type 0 where
  here : Grows s s
  connects : {t : Limiter} → Grows s t → Grows s (connect t).0
  disconnects : {t : Limiter} → Grows s t → 0 < t.active → Grows s (disconnect t)
  raises :
      {t : Limiter} (new_max : ℕ) → Grows s t → t.conn_limit ≤ new_max → Grows s (reload t new_max)

abbrev pub capacity : Limiter → ℕ
capacity s = s.permits + s.active

capacity-connect : (s : Limiter) → capacity (connect s).0 ≡ capacity s
unfolding connect
capacity-connect s = ground arith

limit-connect : (s : Limiter) → (connect s).0.conn_limit ≡ s.conn_limit
unfolding connect
limit-connect s = ground arith

disconnect_lem :
    (s : Limiter)
    → 0 < s.active
    → capacity s ≡ s.conn_limit
    → (capacity (disconnect s) ≡ (disconnect s).conn_limit)
      × ((disconnect s).active ≤ (disconnect s).conn_limit)
unfolding disconnect
disconnect_lem s h e = (omega arith, omega arith)

-- As long as no reload lowers the limit, the connections inside and the free permits add up to
-- the configured limit, so there are never more connections than it.
pub Grows-capacity :
    (max_conn : ℕ) {t : Limiter}
    → Grows (initial max_conn) t
    → (capacity t ≡ t.conn_limit) × (t.active ≤ t.conn_limit)
Grows-capacity max_conn here = unfold initial in (omega arith, omega arith)
Grows-capacity max_conn (connects {t = t} g) =
    let (e, _) = Grows-capacity max_conn g in
    (
      omega (arith, capacity-connect t, limit-connect t, e),
      omega (arith, capacity-connect t, limit-connect t, e),
    )
Grows-capacity max_conn (disconnects g h) =
    let (e, l) = Grows-capacity max_conn g in disconnect_lem _ h e
Grows-capacity max_conn (raises {t = t} new_max g h) =
    let (e, l) = Grows-capacity max_conn g in raise_lem t new_max h e
  where
    raise_lem :
        (s : Limiter) (m : ℕ)
        → s.conn_limit ≤ m
        → capacity s ≡ s.conn_limit
        → (capacity (reload s m) ≡ (reload s m).conn_limit)
          × ((reload s m).active ≤ (reload s m).conn_limit)
    raise_lem s m h e = unfold reload in ground arith

-- A reload never takes permits away: from a state within its limit, lowering the limit to `low`
-- and raising it to `high` again leaves room for more connections than `high`, by exactly as many
-- as the limit was lowered.
pub reload_twice :
    (s : Limiter) (low high : ℕ)
    → capacity s ≡ s.conn_limit
    → low < s.conn_limit
    → low < high
    → let t = reload (reload s low) high in
      (t.conn_limit ≡ high) × (capacity t ≡ high + (s.conn_limit - low))
unfolding reload
reload_twice s low high e h k = ground arith
