-- ===== src/Proxy/V1.antt =====
-- Version 1 headers: the line is taken off the stream byte by byte, and its six fields are read.
pub mod Line
pub mod Digits
use rdpproxy_v.Prelude.{
  ℕ, zero, suc, ◌+◌, ◌-◌, ◌*◌, ◌/◌, ◌%◌, ◌<◌, ◌≤◌, ◌≡◌, ◌≢◌, refl, ap, sym, ◌∙◌, Bool, true, false,
  ◌&&◌, Option, some, none, List, [], ◌∷◌, ◌++◌, length, take, drop, All, take-append-drop,
  length-take, length-drop, length-append, arith, ltb, leb, ◌==◌, if◌then◌else◌, inl, inr,
  Bool-cases,
}
use mathlib.Core.List.{append-nil, append_assoc}
use rdpproxy_v.Prelude.Text.{Bytes, Text, codes, text_eq}
use rdpproxy_v.Prelude.Int.{pos}
use rdpproxy_v.Errors.{Result, ok, err, value_error}
use rdpproxy_v.Stream.{Read}
use rdpproxy_v.Stream.Laws.{readexactly-append}
use rdpproxy_v.Proxy.Numerals.{
  is_digit, decimal, decimal_fuel, more_digits, parse_digits, parse_int,
}
use rdpproxy_v.Proxy.Fields.{all_ascii, before_crlf, decode_ascii, is_space, split, split_from}
use Line.{IsWord, HasNoCr, HasNoCr-append, read_line_lem, before_crlf_lem, split-word, split-last}
use rdpproxy_v.Proxy.{ProxyInfo, read_line, decode_v1, fields_info, parse_v1, read_proxy_protocol}
use Digits.{decimal-IsWord, parse_int-decimal}

-- ASCII with no CR in it: what the loop and the decoder let through.
record IsPlain (s : Text) : Type 0 where
  chars : All (λ c. (c ≢ 13) × (ltb c 128 ≡ true)) s

IsPlain-append : (s : Text) {t : Text} → IsPlain s → IsPlain t → IsPlain (s ++ t)
IsPlain-append [] h k = k
IsPlain-append (c ∷ s) h k = record {
  chars = (h.chars.0, (IsPlain-append s (record { chars = h.chars.1 }) k).chars);
}

graphic_plain : (c : ℕ) → (is_space c ≡ false) × (ltb c 128 ≡ true) → (c ≢ 13) × (ltb c 128 ≡ true)
graphic_plain c h = (ground arith, h.1)

IsPlain-of_graphic : (s : Text) → All (λ c. (is_space c ≡ false) × (ltb c 128 ≡ true)) s → IsPlain s
IsPlain-of_graphic [] h = record { chars = tt }
IsPlain-of_graphic (c ∷ s) h = record {
  chars = (graphic_plain c h.0, (IsPlain-of_graphic s h.1).chars);
}

IsPlain-of_word : {s : Text} → IsWord s → IsPlain s
IsPlain-of_word {s} h = IsPlain-of_graphic s h.graphic

IsPlain-word_blank : {s t : Text} → IsWord s → IsPlain t → IsPlain (s ++ (32 ∷ t))
IsPlain-word_blank {s} h k =
    IsPlain-append s (IsPlain-of_word h) (record { chars = ((omega arith, refl), k.chars) })

HasNoCr-of_plain : (s : Text) → IsPlain s → HasNoCr s
HasNoCr-of_plain [] h = tt
HasNoCr-of_plain (c ∷ s) h = (h.chars.0.0, HasNoCr-of_plain s (record { chars = h.chars.1 }))

all_ascii-plain : (s : Text) → IsPlain s → all_ascii s ≡ true
all_ascii-plain [] h = refl
all_ascii-plain (c ∷ s) h = rw h.chars.0.1 (all_ascii-plain s (record { chars = h.chars.1 }))

decode_ascii-plain : (s : Text) → IsPlain s → decode_ascii s ≡ some s
unfolding decode_ascii
decode_ascii-plain s h = rw (all_ascii-plain s h)

proxy_HasNoCr : (t : Text) → HasNoCr t → HasNoCr (codes "PROXY " ++ t)
proxy_HasNoCr t h = HasNoCr-append (codes "PROXY ") t (omega arith) h

decode_v1_lem :
    (line : Text) (fields : List Text)
    → decode_ascii line ≡ some line
    → split line ≡ fields
    → decode_v1 (some line) ≡ fields_info fields
unfolding decode_v1
decode_v1_lem line fields e f = rw (e, decode_v1) (ap fields_info f)

-- The parser on a line that it can take: 13 bytes first, then the loop.
read_proxy_protocol_line :
    (ipv6_text : Bytes → Text) (a b rest : Bytes)
    → length a ≡ 7
    → HasNoCr a
    → HasNoCr b
    → length b ≤ 497
    → read_proxy_protocol ipv6_text (codes "PROXY " ++ (a ++ (b ++ (13 ∷ 10 ∷ rest))))
      ≡ (decode_v1 (some (codes "PROXY " ++ (a ++ b))), rest)
unfolding read_proxy_protocol parse_v1 text_eq
read_proxy_protocol_line ipv6_text a b rest e ha hb len =
    rw (readexactly-append (codes "PROXY " ++ a) (b ++ (13 ∷ 10 ∷ rest)) 13 (omega arith)) (
      rw (read_line_lem (codes "PROXY " ++ a) b rest (proxy_HasNoCr a ha) hb (omega arith)) (
        ap (λ o. (decode_v1 o, rest))
          (before_crlf_lem (codes "PROXY " ++ (a ++ b))
            (proxy_HasNoCr (a ++ b) (HasNoCr-append a b ha hb)))))

-- The line of a version 1 header, without its CR LF.
abbrev pub v1_line : Text → Text → Text → ℕ → ℕ → Text
v1_line proto src dst sport dport =
    codes "PROXY"
    ++ (32 ∷ proto ++ (32 ∷ src ++ (32 ∷ dst ++ (32 ∷ decimal sport ++ (32 ∷ decimal dport)))))

abbrev pub v1_info : Text → Text → ℕ → ℕ → ProxyInfo
v1_info src dst sport dport = record {
  src_addr = src;
  src_port = pos sport;
  dst_addr = dst;
  dst_port = pos dport;
  version = 1;
}

fields_info_ports :
    (w0 w1 src dst sp dp : Text) (sport dport : ℕ)
    → parse_int sp ≡ some (pos sport)
    → parse_int dp ≡ some (pos dport)
    → fields_info (w0 ∷ w1 ∷ src ∷ dst ∷ sp ∷ dp ∷ []) ≡ ok (v1_info src dst sport dport)
unfolding fields_info
fields_info_ports w0 w1 src dst sp dp sport dport e f = rw (e, f) refl

fields_info_lem :
    (w0 w1 src dst : Text) (sport dport : ℕ)
    → fields_info (w0 ∷ w1 ∷ src ∷ dst ∷ decimal sport ∷ decimal dport ∷ [])
      ≡ ok (v1_info src dst sport dport)
fields_info_lem w0 w1 src dst sport dport =
    fields_info_ports w0 w1 src dst (decimal sport) (decimal dport) sport dport
      (parse_int-decimal sport) (parse_int-decimal dport)

word_long : (w t : Text) (n : ℕ) → IsWord w → n ≤ length t → n + 2 ≤ length (w ++ (32 ∷ t))
word_long w t n h k = omega (arith, h.non_empty, length-append w (32 ∷ t))

HasNoCr-take : (n : ℕ) (s : Bytes) → HasNoCr s → HasNoCr (take n s)
HasNoCr-take zero s h = tt
HasNoCr-take (suc n) [] h = tt
HasNoCr-take (suc n) (c ∷ s) h = (h.0, HasNoCr-take n s h.1)

HasNoCr-drop : (n : ℕ) (s : Bytes) → HasNoCr s → HasNoCr (drop n s)
HasNoCr-drop zero s h = h
HasNoCr-drop (suc n) [] h = tt
HasNoCr-drop (suc n) (c ∷ s) h = HasNoCr-drop n s h.1

-- What stands behind "PROXY ".
abbrev v1_tail : Text → Text → Text → ℕ → ℕ → Text
v1_tail proto src dst sport dport =
    proto ++ (32 ∷ src ++ (32 ∷ dst ++ (32 ∷ decimal sport ++ (32 ∷ decimal dport))))

module _ (proto src dst : Text) (sport dport : ℕ) (wp : IsWord proto) (ws : IsWord src)
    (wd : IsWord dst) where
  proxy-IsWord : IsWord (codes "PROXY")
  proxy-IsWord = record { graphic = ground arith; non_empty = omega arith }

  split-v1_line :
      split (v1_line proto src dst sport dport)
      ≡ codes "PROXY" ∷ proto ∷ src ∷ dst ∷ decimal sport ∷ decimal dport ∷ []
  split-v1_line =
      split-word (codes "PROXY") _ proxy-IsWord
      ∙ ap (λ t. codes "PROXY" ∷ t)
          (split-word proto _ wp
            ∙ ap (λ t. proto ∷ t)
                (split-word src _ ws
                  ∙ ap (λ t. src ∷ t)
                      (split-word dst _ wd
                        ∙ ap (λ t. dst ∷ t)
                            (split-word (decimal sport) _ (decimal-IsWord sport)
                              ∙ ap (λ t. decimal sport ∷ t)
                                  (split-last (decimal dport) (decimal-IsWord dport))))))

  v1_line-IsPlain : IsPlain (v1_line proto src dst sport dport)
  v1_line-IsPlain = IsPlain-word_blank proxy-IsWord (
      IsPlain-word_blank wp (
        IsPlain-word_blank ws (
          IsPlain-word_blank wd
            (IsPlain-word_blank (decimal-IsWord sport) (IsPlain-of_word (decimal-IsWord dport))))))

  decode-v1_line :
      decode_v1 (some (v1_line proto src dst sport dport)) ≡ ok (v1_info src dst sport dport)
  decode-v1_line =
      decode_v1_lem (v1_line proto src dst sport dport) _ (decode_ascii-plain _ v1_line-IsPlain)
        split-v1_line
      ∙ fields_info_lem (codes "PROXY") proto src dst sport dport

  v1_tail_long : 7 ≤ length (v1_tail proto src dst sport dport)
  v1_tail_long = word_long proto _ 5 wp (
      word_long src _ 3 ws (
        word_long dst _ 1 wd (
          omega (
            arith,
            (decimal-IsWord sport).non_empty,
            length-append (decimal sport) (32 ∷ decimal dport),
          ))))

  v1_tail-HasNoCr : HasNoCr (v1_tail proto src dst sport dport)
  v1_tail-HasNoCr = (HasNoCr-of_plain _ v1_line-IsPlain).1.1.1.1.1.1

  -- A line "PROXY proto src dst sport dport", of six words and at most 510 characters, with its
  -- CR LF: the parser answers with its addresses and ports, and leaves the bytes behind it.
  pub read_proxy_protocol-v1_line :
      (ipv6_text : Bytes → Text) (rest : Bytes)
      → length (v1_line proto src dst sport dport) ≤ 510
      → read_proxy_protocol ipv6_text (v1_line proto src dst sport dport ++ (13 ∷ 10 ∷ rest))
        ≡ (ok (v1_info src dst sport dport), rest)
  read_proxy_protocol-v1_line ipv6_text rest h =
      let t = v1_tail proto src dst sport dport in
      let e : take 7 t ++ drop 7 t ≡ t = take-append-drop 7 t in
      ap (λ (l : Bytes). read_proxy_protocol ipv6_text (codes "PROXY " ++ l))
        (ap (λ (l : Bytes). l ++ (13 ∷ 10 ∷ rest)) (sym e)
          ∙ append_assoc (take 7 t) (drop 7 t) (13 ∷ 10 ∷ rest))
      ∙ read_proxy_protocol_line ipv6_text (take 7 t) (drop 7 t) rest (length-take 7 t v1_tail_long)
          (HasNoCr-take 7 t v1_tail-HasNoCr) (HasNoCr-drop 7 t v1_tail-HasNoCr)
          (omega (arith, length-drop 7 t))
      ∙ ap (λ (l : Bytes). (decode_v1 (some (codes "PROXY " ++ l)), rest)) e
      ∙ ap (λ (r : Result ProxyInfo). (r, rest)) decode-v1_line
