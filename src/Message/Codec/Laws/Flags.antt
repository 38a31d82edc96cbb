-- ===== src/Message/Codec/Laws/Flags.antt =====
-- The error flag of a message.
use architect_networking.Base.{
  ℕ, ◌<◌, ◌≡◌, refl, Bool, true, false, not, arith, holds_below, test_below,
}
use architect_networking.Message.Codec.Rpc.{set_error_flag, has_error_flag}

flag_table : holds_below (λ f. not (has_error_flag (set_error_flag f true))) 256 ≡ true
unfolding holds_below has_error_flag set_error_flag
flag_table = refl

flag_table' : holds_below (λ f. not (has_error_flag f)) 256 ≡ true
unfolding holds_below has_error_flag
flag_table' = refl

-- The test of the error flag fails on every byte, also on one whose flag has just been set.
pub has_error_flag-set_error_flag :
    (flags : ℕ) (error : Bool)
    → flags < 256
    → (has_error_flag flags ≡ false) × (has_error_flag (set_error_flag flags error) ≡ false)
unfolding set_error_flag
has_error_flag-set_error_flag flags error h = ground (
  arith,
  test_below (λ f. not (has_error_flag f)) 256 flags h flag_table',
  test_below (λ f. not (has_error_flag (set_error_flag f true))) 256 flags h flag_table,
)
