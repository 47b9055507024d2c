-- ===== src/Sessions.antt =====
-- Hosted sessions: the cache of their live state, the rows that outlive it, and the handlers of the
-- hosts' events that keep both.
pub mod Cache
pub mod Rows
pub mod Lifecycle
pub mod StateSync
pub mod Ports
pub mod Usecase
