-- ===== src/Relay/Pipe.antt =====
-- services/rdp_relay/relay.py: the loop that pumps one direction's bytes through the plugins, and
-- what the relay makes of its two legs.
use rdpproxy_v.Prelude.{
  ℕ, ◌+◌, ◌^◌, ◌<◌, ◌≡◌, refl, ap, ◌∙◌, Bool, true, false, Option, none, some, List, [], ◌∷◌, ◌++◌,
  length, length-append, arith,
}
use rdpproxy_v.Prelude.Text.{Bytes}
use rdpproxy_v.Errors.{
  Error, Result, ok, err, incomplete_read, ssl_error, connection_reset, connection_error,
  timeout_error,
}
use rdpproxy_v.Rdp.Mcs.{target_of}
use rdpproxy_v.Relay.Plugins.{SessionContext, Plugin, on_client_packet, on_backend_packet}
use rdpproxy_v.Relay.Plugins.Patching.{length-on_client_packet, length-on_backend_packet}

pub data Direction : Type 0 where
  client_to_backend backend_to_client : Direction

-- The reasons, without the exceptions' texts in them.
pub data Reason : Type 0 where
  eof killed incomplete ssl_failed connection_failed ssl_shutdown_timeout failed : Reason

-- The `except` clauses, in their order.
unfoldable pub reason_of : Error → Reason
reason_of incomplete_read = incomplete
reason_of ssl_error = ssl_failed
reason_of connection_reset = connection_failed
reason_of connection_error = connection_failed
reason_of timeout_error = ssl_shutdown_timeout
reason_of _ = failed

-- What one round of the loop meets: whether the kill event is set, what `read` gives (no bytes at
-- the end of the stream), what other tasks do to the plugins meanwhile, the time, and the
-- exception of `drain`, if the buffer is full and it raises.
pub record Round : Type 0 where
  pub kill_set : Bool
  pub read : Result Bytes
  pub meanwhile : List Plugin → List Plugin
  pub now : ℕ
  pub drain : Option Error

-- `written` is what the leg has given to `writer.write`.
pub record LegResult : Type 0 where
  pub direction : Direction
  pub transferred : ℕ
  pub reason : Reason
  pub written : Bytes

abbrev pub RelayResult : Type 0
RelayResult = ℕ × ℕ × List LegResult

module _ (ctx : SessionContext) (direction : Direction) where
  abbrev pub on_packet : List Plugin → ℕ → Bytes → Bytes × List Plugin
  on_packet ps now data_ = elim direction [
    | client_to_backend ↦ on_client_packet ps now data_
    | backend_to_client ↦ on_backend_packet ctx ps now data_
  ]

  abbrev pub ends : Reason → LegResult
  ends reason = record { direction = direction; transferred = 0; reason = reason; written = [] }

  -- A packet in front of what the rounds after it give.
  abbrev pub counted : Bytes → LegResult → LegResult
  counted out leg = record leg {
    transferred = length out + leg.transferred;
    written = out ++ leg.written;
  }

  -- The rounds are those that the loop would meet; after them the stream is at its end.
  pub pipe : List Plugin → List Round → LegResult
  unfolding reason_of on_client_packet on_backend_packet
  pipe ps [] = ends eof
  pipe ps (r ∷ rs) = elim r.kill_set [
    | true ↦ ends killed
    | false ↦ elim r.read [
      | err e ↦ ends (reason_of e)
      | ok [] ↦ ends eof
      | ok (c ∷ more) ↦
          (let (out, ps') = on_packet (r.meanwhile ps) r.now (c ∷ more) in
            counted out (elim r.drain [ some e ↦ ends (reason_of e) | none ↦ pipe ps' rs ]))
    ]
  ]

-- The bytes that a leg reads, up to the round that ends it.
pub received : List Round → ℕ
received [] = 0
received (r ∷ rs) = elim r.kill_set [
  | true ↦ 0
  | false ↦ elim r.read [
    | err e ↦ 0
    | ok [] ↦ 0
    | ok (c ∷ more) ↦ length (c ∷ more) + elim r.drain [ some e ↦ 0 | none ↦ received rs ]
  ]
]

-- The loop over the results of the two tasks, from the counts so far: to the client, and to the
-- backend. A leg raises nothing itself.
unfoldable pub collect : ℕ → ℕ → List LegResult → ℕ × ℕ
collect to_client to_backend [] = (to_client, to_backend)
collect to_client to_backend (leg ∷ legs) = elim leg.direction [
  | client_to_backend ↦ collect to_client leg.transferred legs
  | backend_to_client ↦ collect leg.transferred to_backend legs
]

unfoldable pub relay_bidirectional :
    SessionContext → List Plugin → (client backend : List Round) → RelayResult
unfolding pipe collect
relay_bidirectional ctx ps client backend =
    let legs = pipe ctx client_to_backend ps client ∷ pipe ctx backend_to_client ps backend ∷ [] in
    let (to_client, to_backend) = collect 0 0 legs in (to_client, to_backend, legs)

-- A leg of this direction that counts and writes n bytes.
abbrev pub Counts : Direction → LegResult → ℕ → Type 0
Counts direction leg n =
    (leg.direction ≡ direction) × (leg.transferred ≡ n) × (length leg.written ≡ n)

module _ (ctx : SessionContext) (direction : Direction)
    (small : target_of ctx.client_requested_protocols < 2 ^ 32) where
  length-on_packet :
      (d : Direction) (ps : List Plugin) (now : ℕ) (packet : Bytes)
      → length (on_packet ctx d ps now packet).0 ≡ length packet
  length-on_packet client_to_backend ps now packet = length-on_client_packet ps now packet
  length-on_packet backend_to_client ps now packet =
      length-on_backend_packet ctx ps now packet small

  counted-Counts :
      (out packet : Bytes) (leg : LegResult) (n : ℕ)
      → length out ≡ length packet
      → Counts direction leg n
      → Counts direction (counted ctx direction out leg) (length packet + n)
  counted-Counts out packet leg n e (d, t, w) =
      (d, omega (arith, e, t), omega (arith, length-append out leg.written, e, w))

  -- A leg counts and writes exactly as many bytes as it reads, whatever ends it, whatever the
  -- plugins are and whatever other tasks do to them meanwhile, if the session's protocols are a
  -- 32-bit number.
  pub pipe_lem :
      (ps : List Plugin) (rs : List Round)
      → Counts direction (pipe ctx direction ps rs) (received rs)
  unfolding pipe received
  pipe_lem ps [] = (refl, refl, refl)
  pipe_lem ps (r ∷ rs) = at (λ ps'. pipe_lem ps' rs) r.kill_set r.read r.drain
    where
      at :
          (later : (ps' : List Plugin) → Counts direction (pipe ctx direction ps' rs) (received rs))
          (k : Bool) (read : Result Bytes) (o : Option Error)
          → Counts direction
              (pipe ctx direction ps (record r { kill_set = k; read = read; drain = o } ∷ rs))
              (received (record r { kill_set = k; read = read; drain = o } ∷ rs))
      at later true read o = (refl, refl, refl)
      at later false (err e) o = (refl, refl, refl)
      at later false (ok []) o = (refl, refl, refl)
      at later false (ok (c ∷ more)) (some e) =
          counted-Counts _ (c ∷ more) (ends ctx direction (reason_of e)) 0
            (length-on_packet direction (r.meanwhile ps) r.now (c ∷ more)) (refl, refl, refl)
      at later false (ok (c ∷ more)) none =
          let ps' = (on_packet ctx direction (r.meanwhile ps) r.now (c ∷ more)).1 in
          counted-Counts _ (c ∷ more) (pipe ctx direction ps' rs) (received rs)
            (length-on_packet direction (r.meanwhile ps) r.now (c ∷ more)) (later ps')

collect_legs :
    (a b : LegResult)
    → a.direction ≡ client_to_backend
    → b.direction ≡ backend_to_client
    → collect 0 0 (a ∷ b ∷ []) ≡ (b.transferred, a.transferred)
unfolding collect
collect_legs a b e f = rw e (rw f refl)

-- The relay's result has the bytes of each direction under its name: to the client what the
-- backend's leg read, to the backend what the client's leg read (for a session whose protocols are
-- a 32-bit number).
pub relay_bidirectional_lem :
    (ctx : SessionContext) (ps : List Plugin) (client backend : List Round)
    → target_of ctx.client_requested_protocols < 2 ^ 32
    → let result = relay_bidirectional ctx ps client backend in
      (result.0 ≡ received backend) × (result.1 ≡ received client)
unfolding relay_bidirectional
relay_bidirectional_lem ctx ps client backend small =
    let a = pipe ctx client_to_backend ps client in
    let b = pipe ctx backend_to_client ps backend in
    let (d, t, w) = pipe_lem ctx client_to_backend small ps client in
    let (d', t', w') = pipe_lem ctx backend_to_client small ps backend in
    let legs = collect_legs a b d d' in
    (ap (λ (c : ℕ × ℕ). c.0) legs ∙ t', ap (λ (c : ℕ × ℕ). c.1) legs ∙ t)
