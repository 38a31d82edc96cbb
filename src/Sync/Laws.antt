-- ===== src/Sync/Laws.antt =====
-- A state goes from one node to the other: the conversions are inverse up to an empty
-- DestinationIP, and what the secondary applies is the primary's state or nothing.
mod Convert
mod Transfer
unfoldable pub use Convert.*
pub use Transfer.*
