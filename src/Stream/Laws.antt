-- ===== src/Stream/Laws.antt =====
-- `readexactly` on a stream that begins with known bytes.
use rdpproxy_v.Prelude.{
  ℕ, ◌<◌, ◌≡◌, ◌++◌, length, [], arith, length-append, take-append, drop-append,
}
use rdpproxy_v.Prelude.Text.{Bytes}
use rdpproxy_v.Errors.{ok, err, incomplete_read}
use rdpproxy_v.Stream.{readexactly}

pub readexactly-append :
    (xs rest : Bytes) (n : ℕ) → n ≡ length xs → readexactly n (xs ++ rest) ≡ (ok xs, rest)
unfolding readexactly
readexactly-append xs rest n h =
    rw h (ground (arith, length-append xs rest, take-append xs rest, drop-append xs rest))

pub readexactly_short :
    (n : ℕ) (s : Bytes) → length s < n → readexactly n s ≡ (err incomplete_read, [])
unfolding readexactly
readexactly_short n s h = ground arith
