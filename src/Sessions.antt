-- ===== src/Sessions.antt =====
-- libs/redis_store/sessions.py: RDP tokens, portal sessions and admin sessions in Redis. What
-- `secrets` draws and what `time` says are arguments. A transaction (WATCH ... EXEC) fails exactly
-- if another client writes the key meanwhile; such a write is an argument too.
mod Data
mod Defs
mod AdminWeb
pub mod Tokens
pub mod Web
pub mod Found
pub mod Lasting
pub mod Race
mod Tests
unfoldable pub use Data.*
unfoldable pub use Defs.*
unfoldable pub use AdminWeb.*
