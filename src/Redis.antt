-- ===== src/Redis.antt =====
-- The Redis server as the program uses it through redis-py: what its commands are documented to
-- do, as an interface. A program part takes a `Redis` as a parameter.
pub mod Values
pub mod Keys
pub mod Memory
use Values.{Value, number, count_of, IsCount}
use rdpproxy_v.Prelude.{
  ℕ, suc, ◌-◌, ◌<◌, ◌≡◌, Option, none, some, Bool, ltb, ◌==◌, if◌then◌else◌, is_some,
}
use rdpproxy_v.Prelude.Text.{Text, text_eq}

-- `ttl` is the number of seconds that a key has left, and 0 for a key that is missing or does not
-- expire: the server's answers -2 and -1, which the program only tests by `ttl > 0`.
pub record Redis : Type 1 where
  pub State : Type 0
  pub get : State → Text → Option Value
  pub ttl : State → Text → ℕ
  pub setex : State → Text → ℕ → Value → State
  pub delete : State → Text → State
  -- The command's answer is the number that then stands at the key.
  pub incr : State → Text → State
  pub expire : State → Text → ℕ → State
  -- Time passes, in seconds.
  pub elapse : State → ℕ → State
  pub get-setex :
      (s : State) (k : Text) (t : ℕ) (v : Value) (j : Text)
      → 0 < t
      → get (setex s k t v) j ≡ (if text_eq k j then some v else get s j)
  pub ttl-setex :
      (s : State) (k : Text) (t : ℕ) (v : Value) (j : Text)
      → 0 < t
      → ttl (setex s k t v) j ≡ (if text_eq k j then t else ttl s j)
  pub get-delete :
      (s : State) (k j : Text) → get (delete s k) j ≡ (if text_eq k j then none else get s j)
  pub ttl-delete :
      (s : State) (k j : Text) → ttl (delete s k) j ≡ (if text_eq k j then 0 else ttl s j)
  pub get-incr :
      (s : State) (k j : Text)
      → IsCount (get s k)
      → get (incr s k) j
        ≡ (if text_eq k j then some (number (suc (count_of (get s k)))) else get s j)
  pub ttl-incr : (s : State) (k j : Text) → IsCount (get s k) → ttl (incr s k) j ≡ ttl s j
  pub get-expire :
      (s : State) (k : Text) (t : ℕ) (j : Text) → 0 < t → get (expire s k t) j ≡ get s j
  pub ttl-expire :
      (s : State) (k : Text) (t : ℕ) (j : Text)
      → 0 < t
      → ttl (expire s k t) j
        ≡ (if text_eq k j then (if is_some (get s k) then t else 0) else ttl s j)
  pub get-elapse :
      (s : State) (n : ℕ) (j : Text)
      → get (elapse s n) j
        ≡ (if ttl s j == 0 then get s j else if ltb n (ttl s j) then get s j else none)
  pub ttl-elapse : (s : State) (n : ℕ) (j : Text) → ttl (elapse s n) j ≡ ttl s j - n
