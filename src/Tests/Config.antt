-- ===== src/Tests/Config.antt =====
-- The configuration.
use architect_networking.Base.{◌≡◌, ◌↔◌, refl, none, pos}
use architect_networking.Config.{LeaderConfig, validate}
use architect_networking.Config.Laws.{IsAcceptable, validate-eq-none}
use architect_networking.Tests.Data.{config, parse_ip}

bare : LeaderConfig
bare = record config { port = 0; sync_interval = pos 0 }

passes : (validate parse_ip config).1 ≡ none
unfolding validate
passes = refl

acceptable : IsAcceptable parse_ip config
acceptable = (validate-eq-none parse_ip config).0 passes

validate-eq-none_example : ((validate parse_ip config).1 ≡ none) ↔ IsAcceptable parse_ip config
validate-eq-none_example = validate-eq-none parse_ip config

bare_passes : (validate parse_ip bare).1 ≡ none
unfolding validate bare
bare_passes = refl
