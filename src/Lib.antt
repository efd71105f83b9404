-- ===== src/Lib.antt =====
-- RDP-Proxy: a portal that hands out RDP tokens, an admin panel, and a relay that turns a token
-- into a connection to an RDP server. The panel writes the servers, the templates and the
-- accounts, and the portal reads the first two. The portal and the relay meet in Redis: the portal
-- stores a session under a token (src/libs/redis_store/sessions.py), the token comes to the relay
-- in the cookie of the client's X.224 request, and the relay reads the session back, answers the
-- client, and pumps the bytes through its plugins, which patch the MCS messages.
--
-- The files, and the code that they are about:
--   Prelude, Errors, Search, Stream, Pack: what the parts share - texts as lists of code points
--     and bytes as lists of numbers, exceptions as values, `bytes.find`, `strip` and `re.findall`
--     as the code calls them, asyncio's `readexactly` on a stream that ends, and the formats of
--     `struct`.
--   Proxy: src/libs/proxy_protocol/parser.py. `read_proxy_protocol`, `parse_v1` and `parse_v2` are
--     readers: from the bytes of the stream to an answer or an exception, and the bytes left.
--   Rdp: src/libs/rdp/tpkt.py, x224.py and mcs.py, a module each. The patches are
--     `patch_mcs_client` and `patch_mcs_server`, loops over the positions of the packet.
--   Redis: the commands that the program gives to Redis, as an interface (a record of operations
--     and laws), with the key patterns of src/libs/redis_store/keys.py and the stored objects.
--     Redis.Memory is one implementation.
--   Crypto: src/libs/redis_store/encryption.py over AES-GCM, base64, UTF-8 and SHA-256, which are
--     an interface. Crypto.Tagged is one implementation.
--   Sessions: src/libs/redis_store/sessions.py. A method takes the state of Redis and gives the
--     new one; what `secrets` draws and what `time` says are arguments, and so are the writes of
--     other clients between WATCH and EXEC.
--   Limiter: src/libs/security/login_limiter.py.
--   Credssp: src/libs/rdp/credssp.py: DER (Credssp.Der), the TSRequest (Credssp.TsRequest), the
--     records off the stream (Credssp.Records) and the handshake over them (Credssp.Handshake).
--     NTLM, SPNEGO, the certificate and impacket's `asn1encode` are parameters. Credssp.Sample has
--     concrete ones.
--   Settings: src/libs/config/settings_manager.py: the table, the cache, and the saves and loads
--     between them. Settings.Config is the configuration of src/libs/config/loader.py with the
--     values to fall back to, Settings.Seed the seeding of the table, the hooks and what a save
--     tells the other services, Settings.Params and Settings.Views what services and the panel
--     read. Dict has the operations of Python's dicts.
--   Tracker: src/libs/redis_store/active_tracker.py, and in Tracker.Kill the requests of
--     src/services/admin/routes/sessions.py that end sessions. Tracker.Steps has their steps in
--     any order.
--   Effect: code that keeps a state and may raise, which the handshake, the tracker and the
--     handler are written in.
--   Relay: src/services/rdp_relay: the plugins and their registry (Relay.Plugins), the bytes of
--     one direction (Relay.Pipe), and the semaphore of main.py that limits the connections, with
--     its change on a reload (Relay.Limit). Relay.Handler is `__call__` of handler.py, over the
--     tracker, the sessions, the handshake and the pipe; Relay.Connection has what a connection
--     meets, with which of its calls outside raise. Relay.ClientAddress is the part of handler.py
--     that finds the client's address.
--   RdpFile: src/libs/rdp/rdp_file.py, a dict as the list of its entries in order.
--   Portal: src/services/portal/routes/auth.py and servers.py with dependencies.py: the login, the
--     list of the servers and the .rdp file, over Sessions, Limiter, Settings, Servers and
--     RdpFile.
--   Servers: src/libs/db/models/server.py with its constraints, and
--     src/services/admin/routes/servers.py: the addresses (Servers.Address), the requests on a row
--     (Servers.Requests), the clone (Servers.Clone) and the new order (Servers.Reorder).
--   Templates: src/services/admin/routes/templates.py: the requests on the templates and the
--     preview.
--   Panel: src/services/admin/dependencies.py, routes/auth.py (Panel.Forms) and
--     src/libs/security/passwords.py: who gets into the panel.
--   Admins: src/services/admin/routes/admin_users.py, the administrators' accounts in the
--     database.
--
-- Recursion is on the data, with no bound of its own, but for five loops. The digits of a number
-- are written with the number plus one as fuel, which is more than it has digits. The loop over
-- the positions of an MCS packet has as many rounds as the code's `range`. The retry loop of
-- `set_token_fingerprint` goes over the list of the other clients' writes that disturb it, and is
-- not disturbed after them. The loop of TSRequest.from_string has the number of the bytes as fuel,
-- and each round takes one or more of them off. A leg of the relay goes over the list of the
-- rounds that it meets, and finds the stream at its end after them.
--
-- Numbers are natural numbers. A port is an integer where the code takes what `int()` reads. The
-- fields of a JSON object are the fields of a record, so that no key is missing. INCR on a value
-- that is no count is outside the laws of the interface. IPv6 addresses as text, lower case, UTF-8
-- and the digest are parameters.
--
-- A UUID is its text in the canonical form. A commit that raises has written nothing, and a task
-- is not cancelled. What else of Redis may raise than the calls that Relay.Connection lists is
-- left out.
--
-- The objects that an application keeps in app.state (store, settings, database) are taken to be
-- there. A page is its status, and a redirect is the cookie of the session that it sets. A table
-- is the list of its rows, whose order is that of a query without ORDER BY; a new row comes last,
-- and a commit fails where a constraint of the table does not hold. The time between two requests
-- is left to the theorems that name it. The services that share the settings take turns: an
-- operation of one is done as a whole.
--
-- Not modelled: NTLM and SPNEGO themselves, the LDAP client (the portal takes its `authenticate`
-- as an argument), what the hooks of the settings do, the ACME client, the HTML pages, the CSRF
-- and audit middlewares of the panel, the listings of the panel, metrics and the quality of
-- connections (nothing else depends on them), logging, the start of the services, and the TLS and
-- TCP options of the sockets.
pub mod Prelude
pub mod Errors
pub mod Search
pub mod Stream
pub mod Pack
pub mod Proxy
pub mod Rdp
pub mod Redis
pub mod Limiter
pub mod Crypto
pub mod Sessions
pub mod Admins
pub mod Credssp
pub mod Dict
pub mod Effect
pub mod Panel
pub mod Portal
pub mod RdpFile
pub mod Relay
pub mod Servers
pub mod Settings
pub mod Templates
pub mod Tracker
