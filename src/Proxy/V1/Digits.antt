-- ===== src/Proxy/V1/Digits.antt =====
-- Numbers as words: the digits of a number are read back.
use rdpproxy_v.Prelude.{
  ℕ, zero, suc, ◌+◌, ◌-◌, ◌*◌, ◌/◌, ◌%◌, ◌<◌, ◌≤◌, ◌≡◌, refl, ap, ◌∙◌, true, false, some, [], ◌∷◌,
  ◌++◌, length, All, length-append, arith, ltb, ◌==◌, inl, inr, Bool-cases,
}
use rdpproxy_v.Prelude.Text.{Text}
use rdpproxy_v.Prelude.Int.{pos}
use rdpproxy_v.Proxy.Numerals.{
  is_digit, decimal, decimal_fuel, more_digits, parse_digits, parse_int,
}
use rdpproxy_v.Proxy.Fields.{is_space}
use rdpproxy_v.Proxy.V1.Line.{IsWord}

-- The digits of a number, read back.
digits_value : ℕ → Text → ℕ
digits_value n [] = n
digits_value n (c ∷ s) = digits_value (n * 10 + (c - 48)) s

abbrev AreDigits : Text → Type 0
AreDigits s = All (λ c. is_digit c ≡ true) s

more_digits_lem : (n : ℕ) (s : Text) → AreDigits s → more_digits n s ≡ some (digits_value n s)
unfolding more_digits digits_value
more_digits_lem n [] h = refl
more_digits_lem n (c ∷ []) h = rw h.0
more_digits_lem n (c ∷ d ∷ s) h = rw h.0 (more_digits_lem (n * 10 + (c - 48)) (d ∷ s) h.1)

digits_value-append :
    (n : ℕ) (s : Text) (c : ℕ) → digits_value n (s ++ (c ∷ [])) ≡ digits_value n s * 10 + (c - 48)
unfolding digits_value
digits_value-append n [] c = refl
digits_value-append n (d ∷ s) c = digits_value-append (n * 10 + (d - 48)) s c

AreDigits-append : (s : Text) (c : ℕ) → AreDigits s → is_digit c ≡ true → AreDigits (s ++ (c ∷ []))
AreDigits-append [] c h e = (e, tt)
AreDigits-append (d ∷ s) c h e = (h.0, AreDigits-append s c h.1 e)

decimal_fuel-AreDigits : (f n : ℕ) → AreDigits (decimal_fuel f n)
unfolding decimal_fuel
decimal_fuel-AreDigits zero n = tt
decimal_fuel-AreDigits (suc f) n = elim (Bool-cases (ltb n 10)) [
  | inl small ↦ rw small (ground arith, tt)
  | inr large ↦ rw large (
      AreDigits-append (decimal_fuel f (n / 10)) (48 + n % 10) (decimal_fuel-AreDigits f (n / 10))
        (ground arith))
]

decimal_fuel_value : (f n : ℕ) → n < f → digits_value 0 (decimal_fuel f n) ≡ n
unfolding decimal_fuel
decimal_fuel_value zero n h = elim h [ ]
decimal_fuel_value (suc f) n h = elim (Bool-cases (ltb n 10)) [
  | inl small ↦ rw small (unfold digits_value in omega arith)
  | inr large ↦ rw large (
      rw (digits_value-append 0 (decimal_fuel f (n / 10)) (48 + n % 10))
        (rw (decimal_fuel_value f (n / 10) (ground arith)) (omega arith)))
]

decimal_fuel_long : (f n : ℕ) → n < f → 1 ≤ length (decimal_fuel f n)
unfolding decimal_fuel
decimal_fuel_long zero n h = elim h [ ]
decimal_fuel_long (suc f) n h = elim (Bool-cases (ltb n 10)) [
  | inl small ↦ rw small (omega arith)
  | inr large ↦
      rw large (omega (arith, length-append (decimal_fuel f (n / 10)) ((48 + n % 10) ∷ [])))
]

parse_int_digits :
    (s : Text) → AreDigits s → 1 ≤ length s → parse_int s ≡ some (pos (digits_value 0 s))
unfolding parse_int parse_digits
parse_int_digits [] h l = absurd (omega arith)
parse_int_digits (c ∷ s) h l =
    let minus : (c == 45) ≡ false = ground arith in
    let plus : (c == 43) ≡ false = ground arith in
    let e : c - 48 ≡ 0 + (c - 48) = omega arith in
    rw (minus, plus, h.0, more_digits_lem (c - 48) s h.1)
      (unfold digits_value in ap (λ (m : ℕ). some (pos (digits_value m s))) e)

-- `int(str(n))` is `n`.
pub parse_int-decimal : (n : ℕ) → parse_int (decimal n) ≡ some (pos n)
unfolding decimal
parse_int-decimal n =
    parse_int_digits (decimal_fuel (suc n) n) (decimal_fuel-AreDigits (suc n) n)
      (decimal_fuel_long (suc n) n (omega arith))
    ∙ ap (λ m. some (pos m)) (decimal_fuel_value (suc n) n (omega arith))

digit_graphic : (c : ℕ) → is_digit c ≡ true → (is_space c ≡ false) × (ltb c 128 ≡ true)
digit_graphic c h = (ground arith, ground arith)

IsWord-of_digits : (s : Text) → AreDigits s → 1 ≤ length s → IsWord s
IsWord-of_digits s h l = record { graphic = go s h; non_empty = l }
  where
    go : (t : Text) → AreDigits t → All (λ c. (is_space c ≡ false) × (ltb c 128 ≡ true)) t
    go [] h = tt
    go (c ∷ t) h = (digit_graphic c h.0, go t h.1)

pub decimal-IsWord : (n : ℕ) → IsWord (decimal n)
unfolding decimal
decimal-IsWord n =
    IsWord-of_digits (decimal_fuel (suc n) n) (decimal_fuel-AreDigits (suc n) n)
      (decimal_fuel_long (suc n) n (omega arith))
