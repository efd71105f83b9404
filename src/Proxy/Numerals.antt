-- ===== src/Proxy/Numerals.antt =====
-- `str(n)` for a number, and `int(s)` for an ASCII text.
use rdpproxy_v.Prelude.{
  ℕ, zero, suc, ◌+◌, ◌-◌, ◌*◌, ◌/◌, ◌%◌, Bool, ◌&&◌, Option, none, some, [], ◌∷◌, ◌++◌, ltb, leb,
  ◌==◌, if◌then◌else◌,
}
use rdpproxy_v.Prelude.Text.{Text}
use rdpproxy_v.Prelude.Int.{ℤ, pos, negsuc}

-- Digits from the last one on. The fuel is more than the number of digits.
unfoldable pub decimal_fuel : ℕ → ℕ → Text
decimal_fuel zero n = []
decimal_fuel (suc f) n =
    let front = decimal_fuel f (n / 10) in
    if ltb n 10 then (48 + n) ∷ [] else front ++ ((48 + n % 10) ∷ [])

unfoldable pub decimal : ℕ → Text
unfolding decimal_fuel
decimal n = decimal_fuel (suc n) n

abbrev pub is_digit : ℕ → Bool
is_digit c = leb 48 c && leb c 57

-- The digits after the first; an underscore may stand between two digits.
unfoldable pub more_digits : ℕ → Text → Option ℕ
more_digits n [] = some n
more_digits n (c ∷ []) = if is_digit c then some (n * 10 + (c - 48)) else none
more_digits n (c ∷ d ∷ rest) =
    let digit = more_digits (n * 10 + (c - 48)) (d ∷ rest) in
    let after_underscore = more_digits (n * 10 + (d - 48)) rest in
    if is_digit c then digit else if c == 95 && is_digit d then after_underscore else none

unfoldable pub parse_digits : Text → Option ℕ
unfolding more_digits
parse_digits [] = none
parse_digits (c ∷ rest) = if is_digit c then more_digits (c - 48) rest else none

abbrev pub negated : ℕ → ℤ
negated zero = pos 0
negated (suc n) = negsuc n

abbrev pub as_ℤ : (ℕ → ℤ) → Option ℕ → Option ℤ
as_ℤ f none = none
as_ℤ f (some n) = some (f n)

-- `int(s)`, where `s` has no white space at its ends. `none` is ValueError.
unfoldable pub parse_int : Text → Option ℤ
unfolding parse_digits
parse_int [] = none
parse_int (c ∷ rest) =
    if c == 45
    then as_ℤ negated (parse_digits rest)
    else if c == 43
    then as_ℤ pos (parse_digits rest)
    else as_ℤ pos (parse_digits (c ∷ rest))
