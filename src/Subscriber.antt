-- ===== src/Subscriber.antt =====
-- subscriber.go: the subscriber, its handlers of publishers and their syncs.
pub mod Segments
pub mod Async
pub mod Events
pub mod Explicit
pub mod Options
pub mod Lifecycle
