-- ===== src/Config.antt =====
-- pkg/failover/leader.go: `LeaderConfig` and `Validate`; pkg/failover/failover.go: `Config` and
-- `Validate`.
-- `net.ParseIP` is the parameter `parse_ip`, which says whether a text is an address.
pub mod Laws
use architect_networking.Base.{
  ℕ, String, Bool, ◌&&◌, ◌||◌, not, Option, none, some, ℤ, pos, leb_ℤ, str_eq, ◌==◌, if◌then◌else◌,
  ◌*◌,
}

abbrev pub role_string_primary : String
role_string_primary = "primary"

abbrev pub role_string_secondary : String
role_string_secondary = "secondary"

-- `time.Duration` counts nanoseconds.
abbrev pub millisecond : ℕ
millisecond = 1000000

abbrev pub second : ℕ
second = 1000000000

-- The logger has no part in any result and is left out.
pub record LeaderConfig : Type 0 where
  pub eni_ip : String
  pub port : ℕ  -- uint16
  pub leader_check_interval : ℤ
  pub sync_interval : ℤ
  pub heartbeat_interval : ℤ
  pub heartbeat_miss_threshold : ℤ
  pub local_socket : String
  pub destination_cidr : String
  pub disable_eni_check : Bool
  pub force_role : String

pub data ConfigError : Type 0 where
  eni_ip_required : ConfigError
  invalid_eni_ip : String → ConfigError
  local_socket_required : ConfigError
  bad_force_role : String → ConfigError

-- `if d <= 0 { d = fallback }`
abbrev pub default_to : ℕ → ℤ → ℤ
default_to fallback d = if leb_ℤ d (pos 0) then pos fallback else d

abbrev pub is_role_choice : String → Bool
is_role_choice r = str_eq r "" || (str_eq r role_string_primary || str_eq r role_string_secondary)

-- The assignments after the last check of a required field.
fill_defaults : LeaderConfig → LeaderConfig
fill_defaults c = record c {
  leader_check_interval = default_to (30 * second) c.leader_check_interval;
  sync_interval = default_to (10 * second) c.sync_interval;
  heartbeat_interval = default_to (40 * millisecond) c.heartbeat_interval;
  heartbeat_miss_threshold = default_to 3 c.heartbeat_miss_threshold;
}

fill_port : LeaderConfig → LeaderConfig
fill_port c = record c { port = if c.port == 0 then 1022 else c.port }

-- `Validate` writes defaults into its receiver, also on the way to an error.
unfoldable pub validate : (String → Bool) → LeaderConfig → LeaderConfig × Option ConfigError
unfolding fill_defaults fill_port
validate parse_ip c =
    if str_eq c.eni_ip ""
    then (c, some eni_ip_required)
    else if not c.disable_eni_check && not (parse_ip c.eni_ip)
    then (c, some (invalid_eni_ip c.eni_ip))
    else if str_eq c.local_socket ""
    then (fill_port c, some local_socket_required)
    else if is_role_choice c.force_role
    then (fill_defaults (fill_port c), none)
    else (fill_defaults (fill_port c), some (bad_force_role c.force_role))

-- failover.go `Config`
pub record MirrorConfig : Type 0 where
  pub primary_socket : String
  pub secondary_socket : String
  pub interval : ℤ

pub data MirrorConfigError : Type 0 where
  primary_socket_required secondary_socket_required : MirrorConfigError

unfoldable pub validate_mirror : MirrorConfig → MirrorConfig × Option MirrorConfigError
validate_mirror c =
    if str_eq c.primary_socket ""
    then (c, some primary_socket_required)
    else if str_eq c.secondary_socket ""
    then (c, some secondary_socket_required)
    else (record c { interval = default_to (30 * second) c.interval }, none)
