-- ===== src/Proxy.antt =====
-- libs/proxy_protocol/parser.py: the PROXY protocol header, version 1 (text) or 2 (binary), that
-- HAProxy sends before the client's bytes. The text of an IPv6 address is Python's `ipaddress`.
pub mod Numerals
pub mod Fields
pub mod V2
pub mod V1
mod Tests
use Numerals.{decimal, parse_int}
use Fields.{before_crlf, decode_ascii, split}
use rdpproxy_v.Prelude.{
  ℕ, zero, suc, ◌+◌, ◌-◌, ◌/◌, ◌%◌, Bool, not, Option, none, some, List, [], ◌∷◌, ◌++◌, length,
  take, drop, is_some, ltb, leb, ◌==◌, if◌then◌else◌,
}
use rdpproxy_v.Prelude.Text.{Bytes, Text, codes, text_eq}
use rdpproxy_v.Prelude.Int.{ℤ, pos}
use rdpproxy_v.Errors.{
  Result, ok, err, value_error, index_error, unicode_error, incomplete_read, map_result,
}
use rdpproxy_v.Stream.{Read, pure, raise, lift, readexactly, ◌>>=◌}
use rdpproxy_v.Pack.{be16, unpack_be16, unpack_be16_pair}

abbrev pub pp_v2_signature : Bytes
pp_v2_signature = 13 ∷ 10 ∷ 13 ∷ 10 ∷ 0 ∷ 13 ∷ 10 ∷ 81 ∷ 85 ∷ 73 ∷ 84 ∷ 10 ∷ []

abbrev pub pp_v1_prefix : Bytes
pp_v1_prefix = codes "PROXY "

-- Ports are integers: version 1 takes whatever `int()` reads.
pub record ProxyInfo : Type 0 where
  pub src_addr : Text
  pub src_port : ℤ
  pub dst_addr : Text
  pub dst_port : ℤ
  pub version : ℕ

abbrev pub local_info : ProxyInfo
local_info = record {
  src_addr = codes "local";
  src_port = pos 0;
  dst_addr = codes "local";
  dst_port = pos 0;
  version = 2;
}

-- ".".join(str(b) for b in data)
pub dotted : Bytes → Text
unfolding decimal
dotted [] = []
dotted (b ∷ []) = decimal b
dotted (b ∷ c ∷ bs) = decimal b ++ (codes "." ++ dotted (c ∷ bs))

abbrev pub info_of : Text → Text → ℕ × ℕ → ProxyInfo
info_of src dst (sport, dport) = record {
  src_addr = src;
  src_port = pos sport;
  dst_addr = dst;
  dst_port = pos dport;
  version = 2;
}

-- The AF_INET and AF_INET6 branches, with their check on the length.
pub inet : Bytes → Result ProxyInfo
unfolding dotted unpack_be16_pair
inet addr_data =
    if ltb (length addr_data) 12
    then err value_error
    else map_result (info_of (dotted (take 4 addr_data)) (dotted (take 4 (drop 4 addr_data))))
        (unpack_be16_pair (take 4 (drop 8 addr_data)))

-- An outcome that needs no more bytes.
abbrev pub parts_info : Text → Text → Option ℤ → Option ℤ → Result ProxyInfo
parts_info src dst (some sport) (some dport) =
    ok (record { src_addr = src; src_port = sport; dst_addr = dst; dst_port = dport; version = 1 })
parts_info src dst _ _ = err value_error

-- parts[2] to parts[5], where there are six fields or more.
pub fields_info : List Text → Result ProxyInfo
unfolding parse_int
fields_info (_ ∷ _ ∷ src ∷ dst ∷ sport ∷ dport ∷ _) =
    parts_info src dst (parse_int sport) (parse_int dport)
fields_info _ = err value_error

-- What `_parse_v1` does with the bytes of the line.
pub decode_v1 : Option Bytes → Result ProxyInfo
unfolding fields_info decode_ascii split
decode_v1 none = err value_error
decode_v1 (some line) = elim (decode_ascii line) [
  | none ↦ err unicode_error
  | some text ↦ fields_info (split text)
]

-- `while b"\r\n" not in buf`: the loop takes a byte of the stream in each round.
pub read_line : Bytes → Read Bytes
unfolding before_crlf
read_line buf [] = if is_some (before_crlf buf) then (ok buf, []) else (err incomplete_read, [])
read_line buf (c ∷ s) =
    let longer = read_line (buf ++ (c ∷ [])) s in
    if is_some (before_crlf buf)
    then (ok buf, c ∷ s)
    else if ltb 512 (length buf + 1)
    then (err value_error, s)
    else longer

pub parse_v1 : Bytes → Read ProxyInfo
unfolding read_line decode_v1 before_crlf
parse_v1 initial = do buf ← read_line initial; lift (decode_v1 (before_crlf buf))

module _ (ipv6_text : Bytes → Text) where
  inet6 : Bytes → Result ProxyInfo
  unfolding unpack_be16_pair
  inet6 addr_data =
      if ltb (length addr_data) 36
      then err value_error
      else map_result
          (info_of (ipv6_text (take 16 addr_data)) (ipv6_text (take 16 (drop 16 addr_data))))
          (unpack_be16_pair (take 4 (drop 32 addr_data)))

  pub by_family : ℕ → Bytes → Result ProxyInfo
  unfolding inet inet6
  by_family family addr_data =
      if family / 16 % 16 == 1
      then inet addr_data
      else if family / 16 % 16 == 2
      then inet6 addr_data
      else err value_error

  -- The checks on the version, the command and the address family.
  pub decode_v2 : ℕ → ℕ → Bytes → Result ProxyInfo
  unfolding by_family
  decode_v2 ver_cmd family addr_data =
      if not (ver_cmd / 16 % 16 == 2)
      then err value_error
      else if ver_cmd % 16 == 0
      then ok local_info
      else by_family family addr_data

  -- header[12], header[13] and header[14:16], which are there: the header has 16 bytes.
  pub v2_body : Bytes → Read ProxyInfo
  unfolding decode_v2 readexactly
  v2_body (ver_cmd ∷ family ∷ len_hi ∷ len_lo ∷ []) = do
    addr_data ← readexactly (be16 len_hi len_lo)
    lift (decode_v2 ver_cmd family addr_data)
  v2_body _ = raise index_error

  pub parse_v2 : Bytes → Read ProxyInfo
  unfolding v2_body readexactly
  parse_v2 initial = do more ← readexactly 3; v2_body (drop 12 (initial ++ more))

  pub read_proxy_protocol : Read ProxyInfo
  unfolding readexactly parse_v2 parse_v1 text_eq
  read_proxy_protocol = do
    peeked ← readexactly 13
    if text_eq (take 12 peeked) pp_v2_signature
        then parse_v2 peeked
        else if text_eq (take 6 peeked) pp_v1_prefix
        then parse_v1 peeked
        else raise value_error
