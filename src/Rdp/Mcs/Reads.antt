-- ===== src/Rdp/Mcs/Reads.antt =====
-- Reads inside a packet succeed, and the loop over a packet yields what its rounds yield.
use rdpproxy_v.Prelude.{
  ℕ, zero, suc, ◌+◌, ◌-◌, ◌≤◌, ◌≡◌, refl, Bool, true, false, Option, none, some, [], ◌∷◌, ◌++◌,
  length, take, drop, length-append, length-take, length-drop, arith, if◌then◌else◌,
}
use rdpproxy_v.Prelude.Text.{Bytes}
use rdpproxy_v.Errors.{Result, ok, err, ◌>>=◌}
use rdpproxy_v.Pack.{unpack_le16_at, unpack_le32_at}
use rdpproxy_v.Rdp.Mcs.{scan}

unpack_le16_front : (b : Bytes) → 2 ≤ length b → (v : ℕ) × (unpack_le16_at b 0 ≡ ok v)
unfolding unpack_le16_at
unpack_le16_front [] h = absurd (omega arith)
unpack_le16_front (a ∷ []) h = absurd (omega arith)
unpack_le16_front (a ∷ b ∷ s) h = (_, refl)

pub unpack_le16_total :
    (p : Bytes) (i : ℕ) → i + 2 ≤ length p → (v : ℕ) × (unpack_le16_at p i ≡ ok v)
unfolding unpack_le16_at
unpack_le16_total p i h = unpack_le16_front (drop i p) (omega (arith, length-drop i p))

unpack_le32_front : (b : Bytes) → 4 ≤ length b → (v : ℕ) × (unpack_le32_at b 0 ≡ ok v)
unfolding unpack_le32_at
unpack_le32_front [] h = absurd (omega arith)
unpack_le32_front (a ∷ []) h = absurd (omega arith)
unpack_le32_front (a ∷ b ∷ []) h = absurd (omega arith)
unpack_le32_front (a ∷ b ∷ c ∷ []) h = absurd (omega arith)
unpack_le32_front (a ∷ b ∷ c ∷ d ∷ s) h = (_, refl)

pub unpack_le32_total :
    (p : Bytes) (i : ℕ) → i + 4 ≤ length p → (v : ℕ) × (unpack_le32_at p i ≡ ok v)
unfolding unpack_le32_at
unpack_le32_total p i h = unpack_le32_front (drop i p) (omega (arith, length-drop i p))

-- A round ends normally, and a packet that it answers with satisfies `P`.
abbrev pub Answer : (Bytes → Type 0) → Option Bytes → Type 0
Answer P none = Unit
Answer P (some q) = P q

pub record Yields (P : Bytes → Type 0) (m : Result (Option Bytes)) : Type 0 where
  pub answer : Option Bytes
  pub normal : m ≡ ok answer
  pub good : Answer P answer

module _ {P : Bytes → Type 0} where
  pub Yields-none : Yields P (ok none)
  Yields-none = record { answer = none; normal = refl; good = tt }

  pub Yields-some : (q : Bytes) → P q → Yields P (ok (some q))
  Yields-some q h = record { answer = some q; normal = refl; good = h }

  pub Yields-if :
      (b : Bool) (m n : Result (Option Bytes))
      → (b ≡ true → Yields P m)
      → (b ≡ false → Yields P n)
      → Yields P (if b then m else n)
  Yields-if true m n hm hn = hm refl
  Yields-if false m n hm hn = hn refl

  pub Yields-bind :
      (m : Result ℕ) (f : ℕ → Result (Option Bytes))
      → (v : ℕ) × (m ≡ ok v)
      → ((v : ℕ) → m ≡ ok v → Yields P (f v))
      → Yields P (m >>= f)
  Yields-bind (ok a) f total h = h a refl
  Yields-bind (err e) f (v, w) h = absurd (cc)

  -- The loop ends normally; its answer is the packet itself, or satisfies `P`.
  pub scan_lem :
      (round : Bytes → ℕ → Result (Option Bytes)) (p : Bytes)
      → ((i : ℕ) → i + 4 ≤ length p → Yields P (round p i))
      → P p
      → (i n : ℕ) → i + n ≤ length p - 3
      → (q : Bytes) × (scan round p i n ≡ ok q) × P q
  unfolding scan
  scan_lem round p step h i zero le = (p, refl, h)
  scan_lem round p step h i (suc n) le =
      let y = step i (omega arith) in
      after y.answer y.normal y.good (scan_lem round p step h (suc i) n (omega arith))
    where
      after :
          (r : Option Bytes)
          → round p i ≡ ok r
          → Answer P r
          → (q : Bytes) × (scan round p (suc i) n ≡ ok q) × P q
          → (q : Bytes) × (scan round p i (suc n) ≡ ok q) × P q
      after none e g rest = (rest.0, rw (e, scan) rest.1, rest.2)
      after (some q) e g rest = (q, rw (e, scan) refl, g)

-- The packet with the four bytes at `pos` replaced.
abbrev pub overwrite : Bytes → ℕ → Bytes → Bytes
overwrite p pos field = take pos p ++ (field ++ drop (pos + 4) p)

pub length-overwrite :
    (p : Bytes) (pos : ℕ) (field : Bytes)
    → length field ≡ 4
    → pos + 4 ≤ length p
    → length (overwrite p pos field) ≡ length p
length-overwrite p pos field e h = omega (
  arith,
  length-append (take pos p) (field ++ drop (pos + 4) p),
  length-append field (drop (pos + 4) p),
  length-take pos p (omega arith),
  length-drop (pos + 4) p,
)
