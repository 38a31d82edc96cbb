-- ===== src/Config/Laws.antt =====
-- What `validate` accepts, what it leaves behind, and that a second call changes nothing
-- (cmd/failover/failover.go validates in PreRunE, and NewLeaderFailover validates again).
use architect_networking.Base.{
  ◌≡◌, ◌≢◌, ◌↔◌, subst, String, Bool, true, false, none, arith, pos, leb_ℤ, eq_iff, ◌⊎◌,
}
use architect_networking.Config.{
  LeaderConfig, validate, role_string_primary, role_string_secondary, MirrorConfig, validate_mirror,
}

-- What a caller has to provide.
pub record IsAcceptable (parse_ip : String → Bool) (c : LeaderConfig) : Type 0 where
  pub eni_ip_given : c.eni_ip ≢ ""
  pub eni_ip_parses : (c.disable_eni_check ≡ true) ⊎ (parse_ip c.eni_ip ≡ true)
  pub socket_given : c.local_socket ≢ ""
  pub role_legal :
      (c.force_role ≡ "")
      ⊎ ((c.force_role ≡ role_string_primary) ⊎ (c.force_role ≡ role_string_secondary))

-- What the daemon runs on.
pub record IsComplete (c : LeaderConfig) : Type 0 where
  pub port_set : c.port ≢ 0
  pub check_positive : leb_ℤ c.leader_check_interval (pos 0) ≡ false
  pub sync_positive : leb_ℤ c.sync_interval (pos 0) ≡ false
  pub heartbeat_positive : leb_ℤ c.heartbeat_interval (pos 0) ≡ false
  pub threshold_positive : leb_ℤ c.heartbeat_miss_threshold (pos 0) ≡ false

module _ (parse_ip : String → Bool) (c : LeaderConfig) where
  validate_sound : (validate parse_ip c).1 ≡ none → IsAcceptable parse_ip c
  unfolding validate
  validate_sound h = ground (
    arith,
    eq_iff c.eni_ip "",
    eq_iff c.local_socket "",
    eq_iff c.force_role "",
    eq_iff c.force_role role_string_primary,
    eq_iff c.force_role role_string_secondary,
  )

  validate_complete : IsAcceptable parse_ip c → (validate parse_ip c).1 ≡ none
  unfolding validate
  validate_complete h = ground (
    arith,
    eq_iff c.eni_ip "",
    eq_iff c.local_socket "",
    eq_iff c.force_role "",
    eq_iff c.force_role role_string_primary,
    eq_iff c.force_role role_string_secondary,
  )

  -- Validation reports no error exactly when the required texts are given, the ENI IP parses
  -- unless the ENI check is disabled, and the forced role is empty, "primary" or "secondary".
  pub validate-eq-none : ((validate parse_ip c).1 ≡ none) ↔ IsAcceptable parse_ip c
  validate-eq-none = (validate_sound, validate_complete)

  -- A configuration that passes leaves validation complete: a port, and positive intervals and
  -- threshold.
  pub validate-IsComplete : (validate parse_ip c).1 ≡ none → IsComplete (validate parse_ip c).0
  unfolding validate
  validate-IsComplete h = ground arith

  pub validate-disable : (validate parse_ip c).0.disable_eni_check ≡ c.disable_eni_check
  unfolding validate
  validate-disable = ground arith

  validate_complete_eq : IsAcceptable parse_ip c → IsComplete c → (validate parse_ip c).0 ≡ c
  unfolding validate
  validate_complete_eq h k = ground arith

  -- The texts that the checks read are never written.
  validate-IsAcceptable : IsAcceptable parse_ip c → IsAcceptable parse_ip (validate parse_ip c).0
  unfolding validate
  validate-IsAcceptable h = ground arith

  -- An acceptable configuration is returned unchanged exactly when it is complete: no legal
  -- setting is overwritten, whatever its size, and every missing one is.
  pub validate-eq_self : IsAcceptable parse_ip c → ((validate parse_ip c).0 ≡ c) ↔ IsComplete c
  unfolding validate
  validate-eq_self h =
      (λ e. subst IsComplete e (validate-IsComplete (validate_complete h)), validate_complete_eq h)

-- A second validation of a validated configuration passes and changes nothing.
pub validate_idem :
    (parse_ip : String → Bool) (c : LeaderConfig)
    → (validate parse_ip c).1 ≡ none
    → validate parse_ip (validate parse_ip c).0 ≡ ((validate parse_ip c).0, none)
validate_idem parse_ip c h =
    let a = validate-IsAcceptable parse_ip c ((validate-eq-none parse_ip c).0 h) in
    cc (
      validate_complete parse_ip (validate parse_ip c).0 a,
      validate_complete_eq parse_ip (validate parse_ip c).0 a (validate-IsComplete parse_ip c h),
    )

-- Validation of the mirror's configuration passes exactly when both sockets are given.
pub validate_mirror-eq-none :
    (c : MirrorConfig)
    → ((validate_mirror c).1 ≡ none) ↔ ((c.primary_socket ≢ "") × (c.secondary_socket ≢ ""))
unfolding validate_mirror
validate_mirror-eq-none c = (
  (λ h. ground (arith, eq_iff c.primary_socket "", eq_iff c.secondary_socket "")),
  (λ h. ground (arith, eq_iff c.primary_socket "", eq_iff c.secondary_socket "")),
)

-- What passes has a positive interval, and passes a second time unchanged.
pub validate_mirror_idem :
    (c : MirrorConfig)
    → (validate_mirror c).1 ≡ none
    → (leb_ℤ (validate_mirror c).0.interval (pos 0) ≡ false)
      × (validate_mirror (validate_mirror c).0 ≡ ((validate_mirror c).0, none))
unfolding validate_mirror
validate_mirror_idem c h = (ground arith, ground arith)
