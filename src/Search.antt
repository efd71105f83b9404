-- ===== src/Search.antt =====
-- `bytes.find`, `str.strip` and the runs of letters that a regular expression finds.
use rdpproxy_v.Prelude.{
  ℕ, zero, suc, ◌-◌, Bool, false, ◌&&◌, ◌||◌, Option, none, some, List, [], ◌∷◌, ◌++◌, length, ltb,
  leb, ◌==◌, if◌then◌else◌,
}
use rdpproxy_v.Prelude.Text.{Bytes, Text, starts_with}

abbrev suc_some : Option ℕ → Option ℕ
suc_some none = none
suc_some (some i) = some (suc i)

-- `data.find(marker)`; `none` is -1.
unfoldable pub find : Bytes → Bytes → Option ℕ
unfolding starts_with
find marker [] = if starts_with marker [] then some 0 else none
find marker (c ∷ s) =
    let rest = find marker s in if starts_with marker (c ∷ s) then some 0 else suc_some rest

-- `str.isspace`
unfoldable pub is_space : ℕ → Bool
is_space c =
    (leb 9 c && leb c 13)
    || (leb 28 c && leb c 32)
    || c == 0x85
    || c == 0xA0
    || c == 0x1680
    || (leb 0x2000 c && leb c 0x200A)
    || c == 0x2028
    || c == 0x2029
    || c == 0x202F
    || c == 0x205F
    || c == 0x3000

unfoldable pub lstrip : Text → Text
unfolding is_space
lstrip [] = []
lstrip (c ∷ s) = let rest = lstrip s in if is_space c then rest else c ∷ s

abbrev strip_end : ℕ → Text → Text
strip_end c [] = if is_space c then [] else c ∷ []
strip_end c (d ∷ s) = c ∷ d ∷ s

unfoldable pub rstrip : Text → Text
unfolding is_space
rstrip [] = []
rstrip (c ∷ s) = strip_end c (rstrip s)

-- `text.strip()`
unfoldable pub strip : Text → Text
unfolding lstrip rstrip
strip s = rstrip (lstrip s)

abbrev pub is_digit_char : ℕ → Bool
is_digit_char c = leb 48 c && leb c 57

abbrev pub is_alpha_char : ℕ → Bool
is_alpha_char c = (leb 65 c && leb c 90) || (leb 97 c && leb c 122)

-- [A-Za-z0-9_-]
abbrev pub is_token_char : ℕ → Bool
is_token_char c = is_alpha_char c || is_digit_char c || c == 95 || c == 45

abbrev run_of : Bytes → List Bytes
run_of run = if ltb (length run) 20 then [] else run ∷ []

-- re.findall(rb"[A-Za-z0-9_-]{20,}", data): the longest runs, from the left; the run so far first.
unfoldable pub token_runs : Bytes → Bytes → List Bytes
token_runs run [] = run_of run
token_runs run (c ∷ s) =
    (if is_token_char c then [] else run_of run)
    ++ token_runs (if is_token_char c then run ++ (c ∷ []) else []) s

-- any(test(ch) for ch in text)
unfoldable pub any_char : (ℕ → Bool) → Text → Bool
any_char test [] = false
any_char test (c ∷ s) = test c || any_char test s

-- `data.replace(old, new)` for a non-empty `old`; the number is how many bytes of a match are
-- still to be skipped.
unfoldable pub replace_from : ℕ → Bytes → Bytes → Bytes → Bytes
unfolding starts_with
replace_from skip old new [] = []
replace_from (suc skip) old new (c ∷ s) = replace_from skip old new s
replace_from zero old new (c ∷ s) =
    let hit = starts_with old (c ∷ s) in
    (if hit then new else c ∷ []) ++ replace_from (if hit then length old - 1 else 0) old new s

unfoldable pub replace : Bytes → Bytes → Bytes → Bytes
unfolding replace_from
replace = replace_from 0
