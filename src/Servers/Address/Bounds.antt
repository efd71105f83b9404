-- ===== src/Servers/Address/Bounds.antt =====
-- The addresses that `_split_address` lets through.
use rdpproxy_v.Prelude.{
  ℕ, ◌≤◌, ◌≡◌, refl, ap, Bool, true, false, ◌||◌, Option, none, some, ltb, if◌then◌else◌, arith,
}
use mathlib.Core.Path.{subst}
use rdpproxy_v.Prelude.Text.{Text, non_empty}
use rdpproxy_v.Search.{strip}
use rdpproxy_v.Admins.{Reply, answer, http_error}
use rdpproxy_v.Servers.Address.{match_address, out_of_range, split_matched, split_address}

-- A port that a connection can be made to.
abbrev pub IsPort : ℕ → Type 0
IsPort p = (1 ≤ p) × (p ≤ 65535)

in_range : (p : ℕ) → (ltb p 1 || ltb 65535 p) ≡ false → IsPort p
in_range p h = (ground arith, ground arith)

-- The test of the range, by its result.
ranged :
    (b : Bool) (h host : Text) (q p : ℕ)
    → out_of_range q ≡ b
    → if◌then◌else◌ {A = Reply (Text × ℕ)} b (http_error 400) (answer (h, q)) ≡ answer (host, p)
    → (h ≡ host) × IsPort p
ranged true h host q p test e = cc
ranged false h host q p test e =
    let same : ◌≡◌ {A = Text × ℕ} (h, q) (host, p) = cc e in
    (
      ap (λ (x : Text × ℕ). x.0) same,
      subst IsPort (ap (λ (x : Text × ℕ). x.1) same) (in_range q test),
    )

split_matched-IsPort :
    (raw : Text) (port : Option ℕ) (m : Option (Text × ℕ)) (host : Text) (p : ℕ)
    → split_matched raw port m ≡ answer (host, p)
    → IsPort p
unfolding split_matched
split_matched-IsPort raw port (some (h, q)) host p e =
    (ranged (out_of_range q) (strip h) host q p refl e).1
split_matched-IsPort raw none none host p e =
    let same : ◌≡◌ {A = Text × ℕ} (raw, 3389) (host, p) = cc e in
    subst IsPort (ap (λ (x : Text × ℕ). x.1) same) (omega arith, omega arith)
split_matched-IsPort raw (some q) none host p e = (ranged (out_of_range q) raw host q p refl e).1

-- Whatever the address and the port of a request are, a port that `_split_address` gives is
-- between 1 and 65535.
pub split_address-IsPort :
    (digit_of : ℕ → Option ℕ) (address : Text) (port : Option ℕ) (host : Text) (p : ℕ)
    → split_address digit_of address port ≡ answer (host, p)
    → IsPort p
unfolding split_address
split_address-IsPort digit_of address port host p e =
    filled (non_empty (strip address)) (match_address digit_of (strip address)) e
  where
    filled :
        (b : Bool) (m : Option (Text × ℕ))
        → (if b then split_matched (strip address) port m else http_error 400) ≡ answer (host, p)
        → IsPort p
    filled true m e = split_matched-IsPort (strip address) port m host p e
    filled false m e = cc
