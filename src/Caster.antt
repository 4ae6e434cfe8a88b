-- ===== src/Caster.antt =====
-- main/ntrip_caster.c: the connections of the local NTRIP caster, by their parts: the configuration
-- (Settings), a rover's request and its answer (Request), the slots (Serve) and the sending to streaming
-- rovers (Stream). Whole, Authorized, Passes and Sourcetable are about them.
pub mod Settings
pub mod Request
pub mod Serve
pub mod Authorized
pub mod Passes
pub mod Sourcetable
pub mod Stream
pub mod Flush
pub mod Flushed
pub mod Frame
pub mod Whole
mod Tests
