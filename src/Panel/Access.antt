-- ===== src/Panel/Access.antt =====
-- services/admin/dependencies.py: from which addresses `require_admin` lets a session in.
use mathlib.Core.Path.{subst}
use rdpproxy_v.Prelude.{
  ℕ, ◌≡◌, refl, ap, ◌∙◌, ◌⊎◌, inl, inr, Bool, true, false, ◌||◌, not, Option, none, some, List, [],
  ◌∷◌, ◌++◌, ◌==◌, All, if◌then◌else◌,
}
use rdpproxy_v.Prelude.Holds.{Holds, holds_here, holds_more}
use rdpproxy_v.Prelude.Text.{Text, text_eq, text_eq_sound, non_empty}
use rdpproxy_v.Errors.{Result, ok, err}
use rdpproxy_v.Search.{strip}
use rdpproxy_v.Crypto.{Crypto}
use rdpproxy_v.Redis.{Redis}
use rdpproxy_v.Sessions.{Ttls, AdminWebSessionData, Interference, get_admin_web_session}
use rdpproxy_v.Sessions.Found.{AdminStored, get_admin_web_session-AdminStored}
use rdpproxy_v.Admins.{answer, http_error}
use rdpproxy_v.Panel.{
  Request, AdminConfig, first_field, get_client_ip, browser_fingerprint, in_any, ip_in_networks,
  allows, admitted, found_session, require_admin,
}

module _ {Address : Type 0} (ip_address : Text → Option Address)
    (in_network : Address → Text → Option Bool) where
  -- The address lies in the network, or the text is no network and is the address's.
  abbrev pub Matches : Text → Address → Text → Type 0
  Matches ip addr net =
      (in_network addr net ≡ some true) ⊎ ((in_network addr net ≡ none) × (ip ≡ net))

  -- Nothing is demanded, or the text is an address that matches one of the networks.
  abbrev pub Allowed : Text → List Text → Type 0
  Allowed ip nets =
      (nets ≡ [])
      ⊎ ((addr : Address) × (net : Text) × (ip_address ip ≡ some addr)
          × Holds nets net
          × Matches ip addr net)

  one-Matches :
      (ip : Text) (addr : Address) (net : Text) (o : Option Bool)
      → in_network addr net ≡ o
      → elim o as (λ _. Bool) [ none ↦ text_eq ip net | some b ↦ b ] ≡ true
      → Matches ip addr net
  one-Matches ip addr net none e h = inr (e, text_eq_sound ip net h)
  one-Matches ip addr net (some b) e h = inl (e ∙ ap some h)

  in_any-Matches :
      (ip : Text) (addr : Address) (nets : List Text)
      → in_any ip_address in_network ip addr nets ≡ true
      → (net : Text) × Holds nets net × Matches ip addr net
  unfolding in_any
  in_any-Matches ip addr [] h = cc
  in_any-Matches ip addr (net ∷ nets) h =
      at (elim (in_network addr net) [ none ↦ text_eq ip net | some b ↦ b ]) refl
        (in_any-Matches ip addr nets) h
    where
      at :
          (b : Bool)
          → elim (in_network addr net) as (λ _. Bool) [ none ↦ text_eq ip net | some b ↦ b ] ≡ b
          → (in_any ip_address in_network ip addr nets ≡ true
              → (other : Text) × Holds nets other × Matches ip addr other)
          → (b || in_any ip_address in_network ip addr nets) ≡ true
          → (other : Text) × Holds (net ∷ nets) other × Matches ip addr other
      at true e later h =
          (net, holds_here net net nets refl, one-Matches ip addr net (in_network addr net) refl e)
      at false e later h =
          let (other, there, m) = later h in (other, holds_more net other nets there, m)

  allows-Allowed :
      (ip : Text) (nets : List Text) → allows ip_address in_network ip nets ≡ true → Allowed ip nets
  unfolding allows ip_in_networks
  allows-Allowed ip [] h = inl refl
  allows-Allowed ip (net ∷ nets) h = at (ip_address ip) refl h
    where
      at :
          (o : Option Address)
          → ip_address ip ≡ o
          → elim o as (λ _. Bool) [
            | none ↦ false
            | some addr ↦ in_any ip_address in_network ip addr (net ∷ nets)
          ]
            ≡ true
          → Allowed ip (net ∷ nets)
      at none e h = cc
      at (some addr) e h =
          let (other, there, m) = in_any-Matches ip addr (net ∷ nets) h in
          inr (addr, other, e, there, m)

  admitted-Allowed :
      (cfg : AdminConfig) (r : Request) (found : Result (Option AdminWebSessionData))
      (sess : AdminWebSessionData)
      → admitted ip_address in_network cfg r found ≡ ok (answer sess)
      → (found ≡ ok (some sess))
        × Allowed (get_client_ip r) cfg.allowed_networks
        × Allowed (get_client_ip r) sess.allowed_ips
  unfolding admitted
  admitted-Allowed cfg r (err e) sess h = cc
  admitted-Allowed cfg r (ok none) sess h = cc
  admitted-Allowed cfg r (ok (some t)) sess h =
      passed (allows ip_address in_network (get_client_ip r) cfg.allowed_networks)
        (allows ip_address in_network (get_client_ip r) t.allowed_ips) refl refl h
    where
      passed :
          (nets own : Bool)
          → allows ip_address in_network (get_client_ip r) cfg.allowed_networks ≡ nets
          → allows ip_address in_network (get_client_ip r) t.allowed_ips ≡ own
          → (if not nets
              then ok (http_error 403)
              else if not own
              then ok (http_error 403)
              else ok (answer t))
            ≡ ok (answer sess)
          → (ok (some t) ≡ ok (some sess))
            × Allowed (get_client_ip r) cfg.allowed_networks
            × Allowed (get_client_ip r) sess.allowed_ips
      passed true true e f h =
          let same : t ≡ sess = cc h in
          (
            ap (λ (x : AdminWebSessionData). ok (some x)) same,
            allows-Allowed (get_client_ip r) cfg.allowed_networks e,
            subst (λ (x : AdminWebSessionData). Allowed (get_client_ip r) x.allowed_ips) same
                (allows-Allowed (get_client_ip r) t.allowed_ips f),
          )
      passed true false e f h = cc
      passed false own e f h = cc

  module _ (R : Redis) (c : Crypto) (ttls : Ttls) (interference : Interference R c ttls) (now : ℕ)
      (s : R.State) (r : Request) (sess : AdminWebSessionData) where
    -- The session that Redis holds under the id in the request's cookie.
    abbrev pub Current : Type 0
    Current =
        (session_id : Text) × (r.cookie_session ≡ some session_id)
        × AdminStored R c ttls interference now s session_id (browser_fingerprint r) sess

    found_session-Current :
        (found_session R c ttls interference now s r).0 ≡ ok (some sess) → Current
    unfolding found_session
    found_session-Current h = at r.cookie_session refl h
      where
        filled :
            (b : Bool) (session_id : Text)
            → (if b
                then get_admin_web_session R c ttls interference now s session_id
                    (browser_fingerprint r)
                else (ok none, s)).0
              ≡ ok (some sess)
            → AdminStored R c ttls interference now s session_id (browser_fingerprint r) sess
        filled true session_id h =
            get_admin_web_session-AdminStored R c ttls interference now s session_id
              (browser_fingerprint r) sess h
        filled false session_id h = cc

        at :
            (o : Option Text)
            → r.cookie_session ≡ o
            → (elim o as (λ _. Result (Option AdminWebSessionData) × R.State) [
              | none ↦ (ok none, s)
              | some session_id ↦
                  if non_empty session_id
                  then get_admin_web_session R c ttls interference now s session_id
                      (browser_fingerprint r)
                  else (ok none, s)
            ]).0
              ≡ ok (some sess)
            → Current
        at none e h = cc
        at (some session_id) e h = (session_id, e, filled (non_empty session_id) session_id h)

    -- Whoever `require_admin` lets in has the session that Redis holds under the id in the
    -- cookie, and that session was bound to the browser's fingerprint (or to none) and seen within
    -- the idle time, unless another client wrote to it during the look. The address that the
    -- request is taken to come from is allowed twice: the configured networks are none or one of
    -- them matches it, and so are the session's own.
    pub require_admin-Allowed :
        (cfg : AdminConfig)
        → (require_admin R c ttls ip_address in_network cfg interference now s r).0
          ≡ ok (answer sess)
        → Current
          × Allowed (get_client_ip r) cfg.allowed_networks
          × Allowed (get_client_ip r) sess.allowed_ips
    unfolding require_admin
    require_admin-Allowed cfg h =
        let (found, nets, own) =
          admitted-Allowed cfg r (found_session R c ttls interference now s r).0 sess h in
        (found_session-Current found, nets, own)

abbrev pub HasNoComma : Text → Type 0
HasNoComma = All (λ (ch : ℕ). (ch == 44) ≡ false)

first_field-append : (ip rest : Text) → HasNoComma ip → first_field (ip ++ (44 ∷ rest)) ≡ ip
unfolding first_field
first_field-append [] rest h = refl
first_field-append (ch ∷ ip) rest (other, more) =
    rw other (ap (λ (t : Text). ch ∷ t) (first_field-append ip rest more))

filled_append : (ip added : Text) → non_empty (ip ++ (44 ∷ added)) ≡ true
filled_append [] added = refl
filled_append (ch ∷ ip) added = refl

-- A header X-Forwarded-For that the client sends decides alone: its first field is the address
-- that the checks use, whatever address the connection comes from and whatever a proxy in front
-- adds behind it. (The field is a trimmed text without a comma, and no middleware
-- has resolved the address.)
pub get_client_ip_forged :
    (r : Request) (ip added : Text)
    → r.client_ip ≡ none
    → r.x_forwarded_for ≡ ip ++ (44 ∷ added)
    → HasNoComma ip
    → strip ip ≡ ip
    → get_client_ip r ≡ ip
unfolding get_client_ip
get_client_ip_forged r ip added unset sent plain trimmed =
    rw (get_client_ip, unset, sent, filled_append ip added, first_field-append ip added plain)
      trimmed
