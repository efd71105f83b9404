-- ===== src/Servers/Address.antt =====
-- services/admin/routes/servers.py: `_split_address` and `_parse_group_guids`. `digit_of` is the
-- value of a character that `\d` matches, `parse_uuid` is `str(uuid.UUID(s))`.
pub mod Bounds
use rdpproxy_v.Prelude.{
  ℕ, zero, suc, ◌+◌, ◌*◌, Bool, true, false, ◌&&◌, ◌||◌, Option, none, some, List, [], ◌∷◌, length,
  ltb, leb, ◌==◌, if◌then◌else◌,
}
use rdpproxy_v.Prelude.Text.{Text, non_empty}
use rdpproxy_v.Search.{strip}
use rdpproxy_v.Admins.{Reply, answer, http_error}

-- [^:]+ and the colon: what is before the first colon, and what is after it.
unfoldable pub split_colon : Text → Option (Text × Text)
split_colon [] = none
split_colon (ch ∷ t) = if ch == 58 then some ([], t) else after ch (split_colon t)
  where
    after : ℕ → Option (Text × Text) → Option (Text × Text)
    after ch none = none
    after ch (some (host, rest)) = some (ch ∷ host, rest)

abbrev pub out_of_range : ℕ → Bool
out_of_range p = ltb p 1 || ltb 65535 p

-- The address after the match.
unfoldable pub split_matched : Text → Option ℕ → Option (Text × ℕ) → Reply (Text × ℕ)
unfolding strip
split_matched raw port (some (host, p)) =
    if out_of_range p then http_error 400 else answer (strip host, p)
split_matched raw none none = answer (raw, 3389)
split_matched raw (some port) none =
    if out_of_range port then http_error 400 else answer (raw, port)

module _ (digit_of : ℕ → Option ℕ) where
  -- `int` of digits, after those that give `n`.
  unfoldable pub digits : ℕ → Text → Option ℕ
  digits n [] = some n
  digits n (ch ∷ t) = next (digit_of ch) (λ d. digits (n * 10 + d) t)
    where
      next : Option ℕ → (ℕ → Option ℕ) → Option ℕ
      next none rest = none
      next (some d) rest = rest d

  -- `\d{1,5}$`
  abbrev pub port_of : Text → Option ℕ
  port_of t = if non_empty t && leb (length t) 5 then digits 0 t else none

  abbrev pub host_port : Option (Text × Text) → Option (Text × ℕ)
  host_port none = none
  host_port (some (host, rest)) =
      if non_empty host
      then (elim (port_of rest) [ none ↦ none | some p ↦ some (host, p) ])
      else none

  -- `_ADDR_PORT_RE.match`, on a text with no white space at its ends.
  unfoldable pub match_address : Text → Option (Text × ℕ)
  unfolding split_colon digits
  match_address raw = host_port (split_colon raw)

  unfoldable pub split_address : Text → Option ℕ → Reply (Text × ℕ)
  unfolding strip match_address split_matched
  split_address address port =
      let raw = strip address in
      if non_empty raw then split_matched raw port (match_address raw) else http_error 400

module _ (parse_uuid : Text → Option Text) where
  abbrev pub with_guid : Option Text → Reply (List Text) → Reply (List Text)
  with_guid none rest = http_error 400
  with_guid (some g) (answer gs) = answer (g ∷ gs)
  with_guid (some g) (http_error code) = http_error code

  unfoldable pub parse_group_guids : List Text → Reply (List Text)
  unfolding strip
  parse_group_guids [] = answer []
  parse_group_guids (v ∷ values) =
      let rest = parse_group_guids values in
      if non_empty (strip v) then with_guid (parse_uuid (strip v)) rest else rest
