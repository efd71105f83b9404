-- ===== src/Stream.antt =====
-- The reading side of a connection: an asyncio StreamReader whose peer has sent some bytes and
-- then closed. A read takes bytes off the front. What a failed read took stays taken, so the state
-- comes back beside the error too.
pub mod Laws
use rdpproxy_v.Prelude.{ℕ, ◌≡◌, refl, List, ◌++◌, leb, if◌then◌else◌, length, take, drop, [], arith}
use rdpproxy_v.Prelude.Text.{Bytes}
use rdpproxy_v.Errors.{Error, Result, ok, err, incomplete_read}

abbrev pub Read : Type 0 → Type 0
Read A = Bytes → Result A × Bytes

module _ {A : Type 0} where
  abbrev pub pure : A → Read A
  pure a s = (ok a, s)

  abbrev pub raise : Error → Read A
  raise e s = (err e, s)

  abbrev pub lift : Result A → Read A
  lift r s = (r, s)

  abbrev continue : {B : Type 0} → Result A → (A → Read B) → Read B
  continue (ok a) f s = f a s
  continue (err e) f s = (err e, s)

infixl 5 ◌>>=◌ ◌>>◌
abbrev pub ◌>>=◌ : {A B : Type 0} → Read A → (A → Read B) → Read B
◌>>=◌ m f s = let (r, s') = m s in continue r f s'

abbrev pub ◌>>◌ : {A B : Type 0} → Read A → Read B → Read B
m >> k = m >>= λ _. k

-- `await reader.readexactly(n)`: too few bytes before the end of the stream are lost, and the
-- read raises IncompleteReadError.
unfoldable pub readexactly : ℕ → Read Bytes
readexactly n s = if leb n (length s) then (ok (take n s), drop n s) else (err incomplete_read, [])
