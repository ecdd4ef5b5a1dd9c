-- ===== src/Contracts.antt =====
-- svarog/include/svarog/core/contracts.hpp: the precondition macros, by build configuration.
use svarog_io.Common.{Bool, true, false, not, ◌||◌, if◌then◌else◌}

-- The two macros that choose what `SVAROG_EXPECTS` and `SVAROG_ENSURES` expand to.
pub record Build : Type 0 where
  pub contracts_in_release : Bool
  pub ndebug : Bool

-- A checked expression either yields its value or ends the process (`gsl::Expects` terminates).
pub data Checked {ℓ} (A : Type ℓ) : Type ℓ where
  passed : A → Checked A
  terminated : Checked A

unfoldable pub contracts_enabled : Build → Bool
contracts_enabled b = b.contracts_in_release || not b.ndebug

-- `SVAROG_EXPECTS(cond)` in front of `rest`.
unfoldable pub expects {ℓ} : {A : Type ℓ} → Build → Bool → A → Checked A
unfolding contracts_enabled
expects b cond rest =
    if contracts_enabled b then (if cond then passed rest else terminated) else passed rest

abbrev pub debug_build : Build
debug_build = record { contracts_in_release = false; ndebug = false }

abbrev pub release_build : Build
release_build = record { contracts_in_release = false; ndebug = true }
