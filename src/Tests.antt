-- ===== src/Tests.antt =====
-- Tests: concrete data, and each theorem applied to it.
mod Data
mod Config
mod Sync
mod Wire
mod Node
mod System
mod Aws
mod Calls
mod Http
mod Rules
