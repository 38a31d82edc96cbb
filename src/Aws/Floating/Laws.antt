-- ===== src/Aws/Floating/Laws.antt =====
-- Which IPs are moved, and that each is tried.
mod Filter
mod Reassign
pub use Filter.{dotted, NoDot, filter_floating_ips_lem, filter_floating_ips_all}
pub use Reassign.{pushed, refused, each_lem, Reassigned, reassign_floating_ips_lem}
