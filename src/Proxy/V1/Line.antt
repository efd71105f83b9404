-- ===== src/Proxy/V1/Line.antt =====
-- The line loop of version 1, and the fields of a line.
use rdpproxy_v.Prelude.{
  ℕ, ◌+◌, ◌≤◌, ◌≡◌, ◌≢◌, refl, ◌∙◌, true, false, some, none, [], ◌∷◌, ◌++◌, length, All,
  length-append, arith, ltb, is_some, sym, ap,
}
use mathlib.Core.List.{append_assoc, append-nil}
use rdpproxy_v.Prelude.Text.{Bytes, Text}
use rdpproxy_v.Errors.{ok}
use rdpproxy_v.Proxy.Fields.{before_crlf, is_space, split, split_from}
use rdpproxy_v.Proxy.{read_line}

abbrev pub HasNoCr : Bytes → Type 0
HasNoCr s = All (λ c. c ≢ 13) s

pub HasNoCr-append : (s t : Bytes) → HasNoCr s → HasNoCr t → HasNoCr (s ++ t)
HasNoCr-append [] t h k = k
HasNoCr-append (c ∷ s) t h k = (h.0, HasNoCr-append s t h.1 k)

before_crlf-none : (s : Bytes) → HasNoCr s → before_crlf s ≡ none
unfolding before_crlf
before_crlf-none [] h = refl
before_crlf-none (c ∷ []) h = refl
before_crlf-none (c ∷ d ∷ s) h = ground (arith, before_crlf-none (d ∷ s) h.1)

before_crlf_cr : (s : Bytes) → HasNoCr s → before_crlf (s ++ (13 ∷ [])) ≡ none
unfolding before_crlf
before_crlf_cr [] h = refl
before_crlf_cr (c ∷ []) h = ground arith
before_crlf_cr (c ∷ d ∷ s) h = ground (arith, before_crlf_cr (d ∷ s) h.1)

pub before_crlf_lem : (s : Bytes) → HasNoCr s → before_crlf (s ++ (13 ∷ 10 ∷ [])) ≡ some s
unfolding before_crlf
before_crlf_lem [] h = refl
before_crlf_lem (c ∷ []) h = ground arith
before_crlf_lem (c ∷ d ∷ s) h = ground (arith, before_crlf_lem (d ∷ s) h.1)

read_line_done : (buf s : Bytes) → is_some (before_crlf buf) ≡ true → read_line buf s ≡ (ok buf, s)
unfolding read_line
read_line_done buf [] h = rw h
read_line_done buf (c ∷ s) h = rw h

read_line_step :
    (buf : Bytes) (c : ℕ) (s : Bytes)
    → before_crlf buf ≡ none
    → length buf + 1 ≤ 512
    → read_line buf (c ∷ s) ≡ read_line (buf ++ (c ∷ [])) s
unfolding read_line
read_line_step buf c s h len =
    let short : ltb 512 (length buf + 1) ≡ false = ground arith in rw h (rw short refl)

-- The loop ends behind the first CR LF, if the line with it is no longer than 512 bytes.
pub read_line_lem :
    (buf l rest : Bytes)
    → HasNoCr buf
    → HasNoCr l
    → length buf + length l + 2 ≤ 512
    → read_line buf (l ++ (13 ∷ 10 ∷ rest)) ≡ (ok ((buf ++ l) ++ (13 ∷ 10 ∷ [])), rest)
read_line_lem buf [] rest hb hl len =
    rw (read_line_step buf 13 (10 ∷ rest) (before_crlf-none buf hb) (omega arith)) (
      rw
        (read_line_step (buf ++ (13 ∷ [])) 10 rest (before_crlf_cr buf hb)
          (omega (arith, length-append buf (13 ∷ []))))
        (rw (append_assoc buf (13 ∷ []) (10 ∷ []), append-nil buf)
          (read_line_done (buf ++ (13 ∷ 10 ∷ [])) rest (rw (before_crlf_lem buf hb) refl))))
read_line_lem buf (c ∷ l) rest hb hl len =
    rw (read_line_step buf c (l ++ (13 ∷ 10 ∷ rest)) (before_crlf-none buf hb) (omega arith)) (
      read_line_lem (buf ++ (c ∷ [])) l rest (HasNoCr-append buf (c ∷ []) hb (hl.0, tt)) hl.1
        (omega (arith, length-append buf (c ∷ [])))
      ∙ ap (λ (t : Bytes). (ok (t ++ (13 ∷ 10 ∷ [])), rest)) (append_assoc buf (c ∷ []) l))

-- A word of a line: printable ASCII, at least one character.
pub record IsWord (w : Text) : Type 0 where
  pub graphic : All (λ c. (is_space c ≡ false) × (ltb c 128 ≡ true)) w
  pub non_empty : 1 ≤ length w

split_from_word :
    (field w rest : Text)
    → All (λ c. (is_space c ≡ false) × (ltb c 128 ≡ true)) w
    → split_from field (w ++ rest) ≡ split_from (field ++ w) rest
unfolding split_from
split_from_word field [] rest h = rw append-nil
split_from_word field (c ∷ w) rest h = rw h.0.0 (
    split_from_word (field ++ (c ∷ [])) w rest h.1
    ∙ ap (λ (t : Text). split_from t rest) (append_assoc field (c ∷ []) w))

-- The first word is the first field.
pub split-word : (w rest : Text) → IsWord w → split (w ++ (32 ∷ rest)) ≡ w ∷ split rest
unfolding split
split-word [] rest h = absurd (omega (arith, h.non_empty))
split-word (c ∷ w) rest h =
    split_from_word [] (c ∷ w) (32 ∷ rest) h.graphic ∙ (unfold split_from in refl)

pub split-last : (w : Text) → IsWord w → split w ≡ w ∷ []
unfolding split
split-last [] h = absurd (omega (arith, h.non_empty))
split-last (c ∷ w) h =
    ap (split_from []) (sym (append-nil (c ∷ w)))
    ∙ split_from_word [] (c ∷ w) [] h.graphic
    ∙ (unfold split_from in refl)
