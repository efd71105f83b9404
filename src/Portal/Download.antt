-- ===== src/Portal/Download.antt =====
-- services/portal/routes/servers.py: whom `rdp_download` serves, what the file says, and what the
-- file's token is good for.
use mathlib.Core.Path.{subst}
use rdpproxy_v.Prelude.{
  ℕ, ◌<◌, ◌≡◌, refl, ap, Bool, true, false, Option, none, some, List, length, ltb, if◌then◌else◌,
}
use rdpproxy_v.Prelude.Holds.{Holds}
use rdpproxy_v.Prelude.Text.{Text, non_empty}
use rdpproxy_v.Errors.{Result, ok, err}
use rdpproxy_v.Crypto.{Crypto}
use rdpproxy_v.Redis.{Redis}
use rdpproxy_v.Sessions.{
  Ttls, SessionData, WebSessionData, Interference, get_session, create_session, get_web_session,
}
use rdpproxy_v.Sessions.Found.{WebStored, get_web_session-WebStored}
use rdpproxy_v.Sessions.Tokens.{get-create_session}
use rdpproxy_v.Admins.{Reply, answer, http_error}
use rdpproxy_v.RdpFile.{RdpTemplate}
use rdpproxy_v.RdpFile.Lines.{SystemLines, build_rdp_content-SystemLines}
use rdpproxy_v.Settings.{Json, Manager, load}
use rdpproxy_v.Settings.Params.{Base, proxy_params}
use rdpproxy_v.Servers.{RdpServer}
use rdpproxy_v.Portal.{
  Request, browser_fingerprint, find_server, checked_server, get_current_session, served, reply,
  download_for, rdp_download,
}
use rdpproxy_v.Portal.Visible.{Permitted, server_visible-Permitted}
use rdpproxy_v.Portal.Listed.{find_server-Holds, checked-Sees}

module _ (R : Redis) (c : Crypto) (cfg : Ttls) (lower : Text → Text) (as_int : Json → ℕ)
    (as_str : Json → Text) (base : Base) (token nonce : Text) (drawn : length nonce ≡ 12)
    (lives : 0 < cfg.rdp_token_ttl) (rows : List RdpServer) (templates : List RdpTemplate) where
  open R use {State, elapse}

  abbrev ticket : WebSessionData → RdpServer → SessionData
  ticket session server = record {
    token = token;
    username = session.username;
    target_host = server.address;
    target_port = server.port;
    password = session.password;
    fingerprint = none;
    server_id = some server.id;
    server_display = some server.display_name;
  }

  -- Who the relay lets in with the token, and to which server: while it lives, the user of the
  -- session, at that server.
  abbrev pub Admits : WebSessionData → RdpServer → State → Type 0
  Admits session server s =
      (n : ℕ)
      → get_session R c cfg (elapse s n) token
        ≡ (if ltb n cfg.rdp_token_ttl then ok (some (ticket session server)) else ok none)

  -- The server that a session may have by its tech_name.
  abbrev pub MayHave : WebSessionData → Text → RdpServer → Type 0
  MayHave session server_id server =
      Holds rows server
      × (server.tech_name ≡ server_id)
      × (server.is_enabled ≡ true)
      × Permitted lower server.group_bindings session.group_guids

  checked_server-MayHave :
      (session : WebSessionData) (server_id : Text) (server : RdpServer)
      → checked_server lower rows server_id session.group_guids ≡ answer server
      → MayHave session server_id server
  unfolding checked_server
  checked_server-MayHave session server_id server h =
      let (found, on, seen) =
        checked-Sees lower session.group_guids (find_server rows server_id) server h in
      let (there, name) = find_server-Holds rows server_id server found in
      (
        there,
        name,
        on,
        (server_visible-Permitted lower server.group_bindings session.group_guids).0 seen,
      )

  abbrev pub Served : WebSessionData → Text → State → Type 0
  Served session server_id s =
      (server : RdpServer) × MayHave session server_id server × Admits session server s

  -- The text is a file with the address of the proxy and the token.
  abbrev pub IsFile : Manager → Text → Type 0
  IsFile m content =
      SystemLines content (as_str (proxy_params base m).0) (as_int (proxy_params base m).1) token

  served-IsFile :
      (session : WebSessionData) (server : RdpServer) (s : State) (m : Manager)
      → IsFile m
          (served R c cfg lower as_int as_str base token nonce m templates session server s).0
  unfolding served create_session
  served-IsFile session server s m =
      (build_rdp_content-SystemLines lower (some templates) session.group_guids
        (as_str (proxy_params base m).0) (as_int (proxy_params base m).1) token).0

  reply-Served :
      (session : WebSessionData) (server_id content : Text) (r : Reply RdpServer) (s s' : State)
      (m m' : Manager)
      → checked_server lower rows server_id session.group_guids ≡ r
      → reply R c cfg lower as_int as_str base token nonce templates session r (s, m)
        ≡ (ok (answer content), (s', m'))
      → Served session server_id s' × IsFile m content
  unfolding reply served create_session
  reply-Served session server_id content (http_error code) s s' m m' passes h = cc
  reply-Served session server_id content (answer server) s s' m m' passes h = (
    (
      server,
      checked_server-MayHave session server_id server passes,
      λ n.
          subst
            (λ t.
              get_session R c cfg (elapse t n) token
              ≡ (if ltb n cfg.rdp_token_ttl then ok (some (ticket session server)) else ok none))
            (ap (λ (x : Result (Reply Text) × (State × Manager)). x.1.0) h)
            (get-create_session R c cfg s token nonce session.username session.password
              server.address server.port (some server.id) (some server.display_name) drawn lives n),
    ),
    subst (IsFile m) (cc (ap (λ (x : Result (Reply Text) × (State × Manager)). x.0) h))
        (served-IsFile session server s m),
  )

  download_for-Served :
      (server_id content : Text) (found : Result (Option WebSessionData)) (s s' : State)
      (m m' : Manager)
      → download_for R c cfg lower as_int as_str base token nonce rows templates server_id found
          (s, m)
        ≡ (ok (answer content), (s', m'))
      → (session : WebSessionData) × (found ≡ ok (some session))
        × (Served session server_id s' × IsFile (load m) content)
  unfolding download_for
  download_for-Served server_id content (err e) s s' m m' h = cc
  download_for-Served server_id content (ok none) s s' m m' h = cc
  download_for-Served server_id content (ok (some session)) s s' m m' h = (
    session,
    refl,
    reply-Served session server_id content (checked_server lower rows server_id session.group_guids)
        s s' (load m) m' refl h,
  )

  -- The session that Redis holds under the id in the request's cookie.
  abbrev pub Current : Interference R c cfg → ℕ → State → Request → WebSessionData → Type 0
  Current interference now s r session =
      (session_id : Text) × (r.cookie_session ≡ some session_id)
      × WebStored R c cfg interference now s session_id (browser_fingerprint r) session

  get_current_session-Current :
      (interference : Interference R c cfg) (now : ℕ) (s : State) (r : Request)
      (session : WebSessionData)
      → (get_current_session R c cfg interference now s r).0 ≡ ok (some session)
      → Current interference now s r session
  unfolding get_current_session
  get_current_session-Current interference now s r session h = at r.cookie_session refl h
    where
      filled :
          (b : Bool) (session_id : Text)
          → (if b
              then get_web_session R c cfg interference now s session_id (browser_fingerprint r)
              else (ok none, s)).0
            ≡ ok (some session)
          → WebStored R c cfg interference now s session_id (browser_fingerprint r) session
      filled true session_id h =
          get_web_session-WebStored R c cfg interference now s session_id (browser_fingerprint r)
            session h
      filled false session_id h = cc

      at :
          (o : Option Text)
          → r.cookie_session ≡ o
          → (elim o as (λ _. Result (Option WebSessionData) × State) [
            | none ↦ (ok none, s)
            | some session_id ↦
                if non_empty session_id
                then get_web_session R c cfg interference now s session_id (browser_fingerprint r)
                else (ok none, s)
          ]).0
            ≡ ok (some session)
          → Current interference now s r session
      at none e h = cc
      at (some session_id) e h = (session_id, e, filled (non_empty session_id) session_id h)

  -- If the portal answers with a file, then Redis held a session under the id in the cookie, which
  -- was bound to the browser's fingerprint (or to none) and seen within the idle time, unless
  -- another client wrote to it during the look. There is a row of the tech_name asked for that is
  -- enabled and that the session's user is permitted to see. The file's lines give the address of
  -- the proxy that the settings name, and the token; and the token admits the session's user, with
  -- the session's password, to that row's address and port until its time is over, and nobody from
  -- then on. (The nonce has 12 bytes, and tokens have a time to live.)
  pub rdp_download-Served :
      (interference : Interference R c cfg) (now : ℕ) (r : Request) (server_id content : Text)
      (s s' : State) (m m' : Manager)
      → rdp_download R c cfg lower as_int as_str base interference token nonce now rows templates r
          server_id
          (s, m)
        ≡ (ok (answer content), (s', m'))
      → (session : WebSessionData) × Current interference now s r session
        × Served session server_id s'
        × IsFile (load m) content
  unfolding rdp_download
  rdp_download-Served interference now r server_id content s s' m m' h =
      let (session, found, (there, file)) =
        download_for-Served server_id content (get_current_session R c cfg interference now s r).0
          (get_current_session R c cfg interference now s r).1 s' m m' h in
      (session, get_current_session-Current interference now s r session found, there, file)
