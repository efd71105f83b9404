-- ===== src/Crypto/Tests.antt =====
-- A text encrypted and decrypted.
use rdpproxy_v.Prelude.{ℕ, ◌≡◌, ◌≢◌, refl, ap, arith, [], ◌∷◌}
use rdpproxy_v.Prelude.Text.{Bytes, Text, codes}
use rdpproxy_v.Errors.{ok, err, other_error}
use rdpproxy_v.Crypto.{encrypt, decrypt, decrypt-encrypt, decrypt_foreign}
use rdpproxy_v.Crypto.Tagged.{tagged}

abbrev twelve : Bytes
twelve = 1 ∷ 2 ∷ 3 ∷ 4 ∷ 5 ∷ 6 ∷ 7 ∷ 8 ∷ 9 ∷ 10 ∷ 11 ∷ 12 ∷ []

decrypt-encrypt_example :
    decrypt tagged
      (encrypt tagged twelve (codes "secret") (codes "rdp:web:1:al"))
      (codes "rdp:web:1:al")
    ≡ ok (codes "secret")
decrypt-encrypt_example = decrypt-encrypt tagged twelve (codes "secret") (codes "rdp:web:1:al") refl

abbrev first_of : Text → ℕ
first_of [] = 0
first_of (c ∷ t) = c

other_user : codes "al" ≢ codes "bo"
other_user e = let h : first_of (codes "al") ≡ first_of (codes "bo") = ap first_of e in omega arith

decrypt_foreign_example :
    decrypt tagged (encrypt tagged twelve (codes "secret") (codes "al")) (codes "bo")
    ≡ err other_error
decrypt_foreign_example =
    decrypt_foreign tagged twelve (codes "secret") (codes "al") (codes "bo") refl other_user
