-- ===== src/Servers/Ports.antt =====
-- services/admin/routes/servers.py: the ports of the rows that requests make.
use mathlib.Core.Path.{subst}
use rdpproxy_v.Prelude.{
  ℕ, ◌≡◌, refl, ap, Bool, true, false, ◌||◌, Option, some, List, [], is_some, if◌then◌else◌,
}
use rdpproxy_v.Prelude.Text.{Text, or_text}
use rdpproxy_v.Admins.{Reply, answer, http_error, or_else}
use rdpproxy_v.Servers.{RdpServer}
use rdpproxy_v.Servers.Address.{split_address, parse_group_guids}
use rdpproxy_v.Servers.Address.Bounds.{IsPort, split_address-IsPort}
use rdpproxy_v.Servers.Requests.{
  ServerCreate, ServerUpdate, new_row, creation, created, readdressed, regrouped, assigned,
  assignment, updated,
}

module _ (digit_of : ℕ → Option ℕ) (parse_uuid : Text → Option Text) where
  pub created-IsPort :
      (new_id : Text) (body : ServerCreate) (s : RdpServer)
      → created digit_of parse_uuid new_id body ≡ answer s
      → IsPort s.port
  unfolding created
  created-IsPort new_id body s h =
      parts (split_address digit_of body.address body.port)
        (parse_group_guids parse_uuid body.groups)
        (λ host p e. split_address-IsPort digit_of body.address body.port host p e) h
    where
      parts :
          (a : Reply (Text × ℕ)) (g : Reply (List Text))
          → ((host : Text) (p : ℕ) → a ≡ answer (host, p) → IsPort p)
          → creation digit_of parse_uuid new_id body a g ≡ answer s
          → IsPort s.port
      parts (http_error code) g port h = cc
      parts (answer hp) (http_error code) port h = cc
      parts (answer (host, p)) (answer groups) port h =
          let same : new_row new_id body (host, p) groups ≡ s = cc h in
          subst (λ (x : RdpServer). IsPort x.port) same (port host p refl)

  readdressed-IsPort :
      (body : ServerUpdate) (s : RdpServer) (host : Text) (p : ℕ)
      → IsPort s.port
      → readdressed digit_of parse_uuid body s ≡ answer (host, p)
      → IsPort p
  unfolding readdressed
  readdressed-IsPort body s host p own h = at (is_some body.address || is_some body.port) h
    where
      at :
          (b : Bool)
          → (if b
              then split_address digit_of
                  (or_text (or_else body.address []) s.address)
                  (some (or_else body.port s.port))
              else answer (s.address, s.port))
            ≡ answer (host, p)
          → IsPort p
      at true h =
          split_address-IsPort digit_of (or_text (or_else body.address []) s.address)
            (some (or_else body.port s.port)) host p h
      at false h =
          let same : ◌≡◌ {A = Text × ℕ} (s.address, s.port) (host, p) = cc h in
          subst IsPort (ap (λ (x : Text × ℕ). x.1) same) own

  pub updated-IsPort :
      (body : ServerUpdate) (s t : RdpServer)
      → IsPort s.port
      → updated digit_of parse_uuid body s ≡ answer t
      → IsPort t.port
  unfolding updated
  updated-IsPort body s t own h =
      parts (readdressed digit_of parse_uuid body s) (regrouped digit_of parse_uuid body s)
        (λ host p e. readdressed-IsPort body s host p own e) h
    where
      parts :
          (a : Reply (Text × ℕ)) (g : Reply (List Text))
          → ((host : Text) (p : ℕ) → a ≡ answer (host, p) → IsPort p)
          → assignment digit_of parse_uuid body s a g ≡ answer t
          → IsPort t.port
      parts (http_error code) g port h = cc
      parts (answer hp) (http_error code) port h = cc
      parts (answer (host, p)) (answer groups) port h =
          let same : assigned digit_of parse_uuid body s (host, p) groups ≡ t = cc h in
          subst (λ (x : RdpServer). IsPort x.port) same (port host p refl)
