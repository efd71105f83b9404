-- ===== src/Redis/Memory.antt =====
-- A Redis in memory: each key has a value and the seconds that it has left (0: it does not
-- expire). It shows that the interface can be met, and tests run on it.
use rdpproxy_v.Prelude.{
  ℕ, suc, ◌-◌, ◌≡◌, refl, ap, ◌∙◌, inl, inr, Bool-cases, Option, none, some, Bool, true, false, ltb,
  ◌==◌, if◌then◌else◌, is_some, arith,
}
use rdpproxy_v.Prelude.Text.{Text, text_eq, text_eq_iff}
use rdpproxy_v.Redis.Values.{Value, number, count_of}
use rdpproxy_v.Redis.{Redis}

abbrev pub Table : Type 0
Table = Text → Option (Value × ℕ)

abbrev pub value_of : Option (Value × ℕ) → Option Value
value_of none = none
value_of (some (v, t)) = some v

abbrev pub time_of : Option (Value × ℕ) → ℕ
time_of none = 0
time_of (some (v, t)) = t

abbrev pub with_time : ℕ → Option (Value × ℕ) → Option (Value × ℕ)
with_time t none = none
with_time t (some (v, _)) = some (v, t)

abbrev pub after : ℕ → Option (Value × ℕ) → Option (Value × ℕ)
after n none = none
after n (some (v, t)) = if t == 0 then some (v, t) else if ltb n t then some (v, t - n) else none

abbrev pub counted : Option (Value × ℕ) → Option (Value × ℕ)
counted o = some (number (suc (count_of (value_of o))), time_of o)

-- One key changes.
abbrev pub put : Table → Text → Option (Value × ℕ) → Table
put s k e j = if text_eq k j then e else s j

pub value_of-if :
    (b : Bool) (x y : Option (Value × ℕ))
    → value_of (if b then x else y) ≡ (if b then value_of x else value_of y)
value_of-if true x y = refl
value_of-if false x y = refl

pub time_of-if :
    (b : Bool) (x y : Option (Value × ℕ))
    → time_of (if b then x else y) ≡ (if b then time_of x else time_of y)
time_of-if true x y = refl
time_of-if false x y = refl

pub time_at_key :
    (s : Table) (k j : Text)
    → (if text_eq k j then time_of (s k) else time_of (s j)) ≡ time_of (s j)
time_at_key s k j = elim (Bool-cases (text_eq k j)) [
  | inl e ↦ rw e (ap (λ (t : Text). time_of (s t)) ((text_eq_iff k j).0 e))
  | inr e ↦ rw e
]

pub value_at_key :
    (s : Table) (t : ℕ) (k j : Text)
    → (if text_eq k j then value_of (with_time t (s k)) else value_of (s j)) ≡ value_of (s j)
value_at_key s t k j = elim (Bool-cases (text_eq k j)) [
  | inl e ↦
      rw e (value_of-with_time (s k) ∙ ap (λ (x : Text). value_of (s x)) ((text_eq_iff k j).0 e))
  | inr e ↦ rw e
]
  where
    value_of-with_time : (o : Option (Value × ℕ)) → value_of (with_time t o) ≡ value_of o
    value_of-with_time none = refl
    value_of-with_time (some (v, _)) = refl

pub time_of-with_time :
    (t : ℕ) (o : Option (Value × ℕ))
    → time_of (with_time t o) ≡ (if is_some (value_of o) then t else 0)
time_of-with_time t none = refl
time_of-with_time t (some (v, _)) = refl

pub value_of-after :
    (n : ℕ) (o : Option (Value × ℕ))
    → value_of (after n o)
      ≡ (if time_of o == 0 then value_of o else if ltb n (time_of o) then value_of o else none)
value_of-after n none = refl
value_of-after n (some (v, t)) = ground arith

pub time_of-after : (n : ℕ) (o : Option (Value × ℕ)) → time_of (after n o) ≡ time_of o - n
time_of-after n none = ground arith
time_of-after n (some (v, t)) = ground arith

abbrev pub nothing : Table
nothing k = none

abbrev pub memory : Redis
memory = record {
  State = Table;
  get = λ s k. value_of (s k);
  ttl = λ s k. time_of (s k);
  setex = λ s k t v. put s k (some (v, t));
  delete = λ s k. put s k none;
  incr = λ s k. put s k (counted (s k));
  expire = λ s k t. put s k (with_time t (s k));
  elapse = λ s n k. after n (s k);
  get-setex = λ s k t v j h. value_of-if (text_eq k j) (some (v, t)) (s j);
  ttl-setex = λ s k t v j h. time_of-if (text_eq k j) (some (v, t)) (s j);
  get-delete = λ s k j. value_of-if (text_eq k j) none (s j);
  ttl-delete = λ s k j. time_of-if (text_eq k j) none (s j);
  get-incr = λ s k j h. value_of-if (text_eq k j) (counted (s k)) (s j);
  ttl-incr = λ s k j h. time_of-if (text_eq k j) (counted (s k)) (s j) ∙ time_at_key s k j;
  get-expire =
      λ s k t j h. value_of-if (text_eq k j) (with_time t (s k)) (s j) ∙ value_at_key s t k j;
  ttl-expire = λ s k t j h.
      time_of-if (text_eq k j) (with_time t (s k)) (s j)
      ∙ ap (λ (x : ℕ). if text_eq k j then x else time_of (s j)) (time_of-with_time t (s k));
  get-elapse = λ s n j. value_of-after n (s j);
  ttl-elapse = λ s n j. time_of-after n (s j);
}
