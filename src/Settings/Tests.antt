-- ===== src/Settings/Tests.antt =====
-- Settings that are saved one after the other.
use rdpproxy_v.Prelude.{◌≡◌, refl, none, [], ◌∷◌, inl}
use rdpproxy_v.Prelude.Int.{pos}
use rdpproxy_v.Prelude.Text.{codes, text_eq}
use rdpproxy_v.Crypto.Tagged.{tagged}
use rdpproxy_v.Dict.{Dict, has}
use rdpproxy_v.Settings.{Json, number, Manager, load, save}
use rdpproxy_v.Settings.Sync.{save-InSync}

abbrev empty_manager : Manager
empty_manager = record { db = λ k. none; cache = λ k. none }

abbrev ports : Dict Json
ports = (codes "public_port", number (pos 443)) ∷ (codes "listen_port", number (pos 3389)) ∷ []

save-InSync_example :
    (save tagged (codes "nonce-nonce!") none empty_manager (codes "proxy") ports).1.cache
      (codes "proxy")
    ≡ (load (save tagged (codes "nonce-nonce!") none empty_manager (codes "proxy") ports).1).cache
        (codes "proxy")
unfolding load has text_eq
save-InSync_example =
    save-InSync tagged (codes "nonce-nonce!") none empty_manager (codes "proxy") ports (λ k. refl)
      (λ e. inl refl) (codes "proxy")
