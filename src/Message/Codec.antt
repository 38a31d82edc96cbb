-- ===== src/Message/Codec.antt =====
-- pkg/failover/failover.frpc.go: `Encode` and `decode` of every message, over the buffer library
-- polyglot, which is the parameter `Polyglot`. An encoder is given the bytes that follow. A decoder
-- fills a message field by field: it returns what it has filled, and the bytes that are left, or
-- none where a field could not be read. Messages are decoded into fresh structs, so a decoder
-- starts from the constructors `New…`.
pub mod Buffer
pub mod Entries
pub mod Whole
pub mod Laws
pub mod Rpc
pub mod Service
pub mod Check
