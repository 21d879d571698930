-- ===== src/Session.antt =====
-- SSHSession (src/ssh_session.h, src/ssh_session.cpp).
pub mod Lifecycle
pub mod Cleanup
pub mod Listeners
pub mod Polling
pub mod Answers
pub mod Connect
pub mod Fingerprint
pub mod Readback
pub mod Accept
pub mod Interface
mod OnlineTests
mod Tests
