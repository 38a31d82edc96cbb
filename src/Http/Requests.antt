-- ===== src/Http/Requests.antt =====
-- pkg/client/client.go: the requests, by the part of the conduit that they are about.
mod Firewall
mod Ports
mod Network
unfoldable pub use Firewall.*
unfoldable pub use Ports.*
unfoldable pub use Network.*
