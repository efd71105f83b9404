-- ===== src/Credssp.antt =====
-- libs/rdp/credssp.py: the CredSSP handshake with the RDP server. NTLM, SPNEGO, X.509 and the
-- `asn1encode` of impacket are parameters.
pub mod Der
pub mod TsRequest
pub mod Records
pub mod Handshake
pub mod Sample
mod Tests
