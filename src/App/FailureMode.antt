-- ===== src/App/FailureMode.antt =====
-- internal/app/failure_mode.go. A finite float64 is an integer multiple of 2^-1074, and stands for
-- that integer. The controller's lock makes `Get` and `Set` single steps on its settings.
pub mod Controller
use stockflow_erp_mock.Common.{◌^◌, ◌||◌, Option, none, some, String, if◌then◌else◌}
use stockflow_erp_mock.Common.Int.{ℤ, pos, ltb_ℤ, leb_ℤ}
use stockflow_erp_mock.Inventory.Errors.{Error, other}

abbrev pub Float64 : Type 0
Float64 = ℤ

-- 1.0
pub one : Float64
one = pos (2 ^ 1074)

pub data FailureMode : Type 0 where
  normal always_reject random_reject processing_delay publish_failure : FailureMode
  duplicate_response : FailureMode
  unsupported : String → FailureMode

pub record FailureModeSettings : Type 0 where
  pub mode : FailureMode
  pub random_reject_probability : Float64
  pub processing_delay : ℤ

-- The settings of `NewFailureModeController`, and so those that `Get` returns at first.
abbrev pub initial_settings : FailureModeSettings
initial_settings = record {
  mode = normal;
  random_reject_probability = pos 0;
  processing_delay = pos 0;
}

validate_mode : FailureMode → FailureModeSettings → Option Error
validate_mode random_reject settings =
    if leb_ℤ settings.random_reject_probability (pos 0)
      || ltb_ℤ one settings.random_reject_probability
    then some (other "random reject probability")
    else none
validate_mode processing_delay settings =
    if leb_ℤ settings.processing_delay (pos 0) then some (other "processing delay") else none
validate_mode (unsupported mode) settings = some (other "unsupported failure mode")
validate_mode _ settings = none

unfoldable pub validate_failure_mode_settings : FailureModeSettings → Option Error
unfolding validate_mode
validate_failure_mode_settings settings = validate_mode settings.mode settings

store :
    FailureModeSettings → FailureModeSettings → Option Error → FailureModeSettings × Option Error
store settings current (some e) = (current, some e)
store settings current none = (settings, none)

-- `Set`: the settings afterwards, and the error.
unfoldable pub set : FailureModeSettings → FailureModeSettings → FailureModeSettings × Option Error
unfolding validate_failure_mode_settings store
set settings current = store settings current (validate_failure_mode_settings settings)
