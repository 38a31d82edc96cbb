-- ===== src/Message/Codec/Laws.antt =====
-- Reading back what was written, message by message.
mod Pieces
pub mod Entries
pub mod Whole
pub mod Flags
pub mod Service
