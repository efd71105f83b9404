-- ===== src/Proxy/Fields.antt =====
-- `bytes.index(b"\r\n")` with the slice before it, `bytes.decode("ascii")` and `str.split()`.
use rdpproxy_v.Prelude.{
  ℕ, Bool, true, ◌&&◌, ◌||◌, Option, none, some, List, [], ◌∷◌, ◌++◌, leb, ltb, ◌==◌, if◌then◌else◌,
}
use rdpproxy_v.Prelude.Text.{Bytes, Text}

abbrev cons_some : ℕ → Option Bytes → Option Bytes
cons_some c none = none
cons_some c (some l) = some (c ∷ l)

-- What stands before the first CR LF.
unfoldable pub before_crlf : Bytes → Option Bytes
before_crlf [] = none
before_crlf (c ∷ []) = none
before_crlf (c ∷ d ∷ s) =
    let rest = before_crlf (d ∷ s) in if c == 13 && d == 10 then some [] else cons_some c rest

abbrev pub all_ascii : Bytes → Bool
all_ascii [] = true
all_ascii (c ∷ s) = ltb c 128 && all_ascii s

-- `none` is UnicodeDecodeError.
unfoldable pub decode_ascii : Bytes → Option Text
decode_ascii s = if all_ascii s then some s else none

-- `str.isspace` on ASCII: tab to CR, the four separators and the blank.
abbrev pub is_space : ℕ → Bool
is_space c = (leb 9 c && leb c 13) || (leb 28 c && leb c 32)

abbrev emit : Text → List Text
emit [] = []
emit (c ∷ s) = (c ∷ s) ∷ []

-- The field so far comes first.
unfoldable pub split_from : Text → Text → List Text
split_from field [] = emit field
split_from field (c ∷ s) =
    (if is_space c then emit field else [])
    ++ split_from (if is_space c then [] else field ++ (c ∷ [])) s

unfoldable pub split : Text → List Text
unfolding split_from
split = split_from []
