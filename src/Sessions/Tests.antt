-- ===== src/Sessions/Tests.antt =====
-- Sessions and tokens in a Redis in memory.
use rdpproxy_v.Prelude.{
  ℕ, ◌<◌, ◌≡◌, refl, arith, Bool, true, false, none, some, [], ◌∷◌, if◌then◌else◌,
}
use rdpproxy_v.Prelude.Text.{Bytes, Text, codes, text_eq}
use rdpproxy_v.Errors.{ok, map_result}
use rdpproxy_v.Crypto.Tagged.{tagged}
use rdpproxy_v.Redis.Values.{web, admin, token, WebPayload, AdminPayload, TokenPayload}
use rdpproxy_v.Redis.Keys
use rdpproxy_v.Redis.Memory.{Table, memory, nothing, put, value_of, time_of}
use rdpproxy_v.Sessions.Defs.{
  create_session, get_session, set_token_fingerprint, token_fingerprint_matches, fingerprint_digest,
  create_web_session, get_web_session, web_data,
}
use rdpproxy_v.Sessions.Data.{Ttls}
use rdpproxy_v.Sessions.Tokens.{get-create_session, set_token_fingerprint_lem}
use rdpproxy_v.Sessions.Web.{accepted, get_web_session_lem}
use rdpproxy_v.Sessions.Race.{get_web_session_disturbed}

abbrev cfg : Ttls
cfg = record { web_ttl = 3600; rdp_token_ttl = 300; web_idle_ttl = 900 }

abbrev nonce : Bytes
nonce = 1 ∷ 2 ∷ 3 ∷ 4 ∷ 5 ∷ 6 ∷ 7 ∷ 8 ∷ 9 ∷ 10 ∷ 11 ∷ 12 ∷ []

-- Another client deletes everything.
abbrev flush : Table → Table
flush s = nothing

abbrev alice_web : Table
alice_web =
    (create_web_session memory tagged cfg (codes "id") nonce 1000 nothing (codes "alice")
      (codes "pw") [] [] (codes "firefox")).1

get_web_session_disturbed_example :
    (get_web_session memory tagged cfg
      (some flush)
      99000
      alice_web
      (codes "id")
      (codes "stranger")).0
    ≡ ok (
        some (record {
          session_id = codes "id";
          username = codes "alice";
          groups = [];
          group_guids = [];
          password = codes "pw";
        }))
get_web_session_disturbed_example =
    get_web_session_disturbed memory tagged cfg (codes "id") nonce (codes "alice") (codes "pw") []
      [] (codes "firefox") 1000 99000 nothing flush (codes "stranger") refl (omega arith)

abbrev root : AdminPayload
root = record {
  admin_user_id = codes "7";
  username = codes "root";
  must_change_password = false;
  browser_fingerprint = codes "fx";
  last_seen_ts = 1000;
  allowed_ips = [];
}

abbrev root_there : Table
root_there = put nothing (Keys.admin_web_session (codes "id")) (some (admin root, 60))

root_at : value_of (root_there (Keys.admin_web_session (codes "id"))) ≡ some (admin root)
unfolding text_eq
root_at = refl

abbrev bob : WebPayload
bob = record {
  username = codes "bob";
  password_enc = [];
  groups = [];
  group_guids = [];
  browser_fingerprint = codes "#fx";
  last_seen_ts = 1000;
}

abbrev bob_there : Table
bob_there = put nothing (Keys.web_session (codes "id")) (some (web bob, 60))

bob_at : value_of (bob_there (Keys.web_session (codes "id"))) ≡ some (web bob)
unfolding text_eq
bob_at = refl

bob_time : 0 < time_of (bob_there (Keys.web_session (codes "id")))
unfolding text_eq
bob_time = omega arith

abbrev bob_accepted : ℕ → Bool
bob_accepted now =
    accepted bob.browser_fingerprint (fingerprint_digest memory tagged cfg (codes "fx")) now 1000
      900

get_web_session_lem_example :
    let look = get_web_session memory tagged cfg none 1500 bob_there (codes "id") (codes "fx") in
    let key = Keys.web_session (codes "id") in
    (look.0 ≡ (
      if bob_accepted 1500
      then map_result some (web_data memory tagged cfg (codes "id") bob)
      else ok none))
    × (value_of (look.1 key)
        ≡ (if bob_accepted 1500 then some (web (record bob { last_seen_ts = 1500 })) else none))
    × (time_of (look.1 key) ≡ (if bob_accepted 1500 then time_of (bob_there key) else 0))
get_web_session_lem_example =
    get_web_session_lem memory tagged cfg 1500 bob_there (codes "id") (codes "fx") bob bob_at
      bob_time

get-create_session_example :
    get_session memory tagged cfg
      (memory.elapse
        (create_session memory tagged cfg
          (codes "tok")
          nonce
          nothing
          (codes "al")
          (codes "pw")
          (codes "host")
          3389
          none
          none).1
        10)
      (codes "tok")
    ≡ ok (
        some (record {
          token = codes "tok";
          username = codes "al";
          target_host = codes "host";
          target_port = 3389;
          password = codes "pw";
          fingerprint = none;
          server_id = none;
          server_display = none;
        }))
get-create_session_example =
    get-create_session memory tagged cfg nothing (codes "tok") nonce (codes "al") (codes "pw")
      (codes "host") 3389 none none refl (omega arith) 10

abbrev ticket : TokenPayload
ticket = record {
  username = codes "al";
  password_enc = [];
  target_host = codes "host";
  target_port = 3389;
  fingerprint = none;
  server_id = none;
  server_display = none;
}

abbrev ticket_there : Table
ticket_there = put nothing (Keys.token (codes "tok")) (some (token ticket, 60))

ticket_at : value_of (ticket_there (Keys.token (codes "tok"))) ≡ some (token ticket)
unfolding text_eq
ticket_at = refl

ticket_time : 0 < time_of (ticket_there (Keys.token (codes "tok")))
unfolding text_eq
ticket_time = omega arith

-- Another client writes the token again in the first round.
abbrev rewrite_ticket : Table → Table
rewrite_ticket s = ticket_there

set_token_fingerprint_lem_example :
    (s' : Table) × (p : TokenPayload) × (set_token_fingerprint memory tagged cfg
        (codes "tok")
        (codes "fx")
        (rewrite_ticket ∷ [])
        ticket_there
      ≡ ok (true, s'))
    × (value_of (ticket_there (Keys.token (codes "tok"))) ≡ some (token p))
    × (value_of (s' (Keys.token (codes "tok")))
        ≡ some (
            token (record p {
              fingerprint = some (fingerprint_digest memory tagged cfg (codes "fx"));
            })))
    × (time_of (s' (Keys.token (codes "tok"))) ≡ time_of (ticket_there (Keys.token (codes "tok"))))
    × ((other : Text)
        → token_fingerprint_matches memory tagged cfg s' (codes "tok") other
          ≡ ok (
              text_eq
                (fingerprint_digest memory tagged cfg (codes "fx"))
                (fingerprint_digest memory tagged cfg other)))
set_token_fingerprint_lem_example =
    set_token_fingerprint_lem memory tagged cfg (codes "tok") (codes "fx") (rewrite_ticket ∷ [])
      ticket_there
      (
        record { payload = ticket; there = ticket_at; time = ticket_time },
        record { payload = ticket; there = ticket_at; time = ticket_time },
      )
      refl
