-- ===== src/System/Invariant.antt =====
-- What holds in every reachable state of the goroutines, whatever their order and whatever AWS,
-- the transport and the clock answer.
pub mod Fields
mod Wired
mod Requests
mod Count
pub use Wired.{Reach-IsWired, never_both, idle_heartbeat_refused}
pub use Requests.{Reach-HasRequests, take_role_valid}
pub use Count.{Reach-count}
