-- ===== src/App/FailureMode/Controller.antt =====
-- The settings that the failure mode controller accepts and holds.
use stockflow_erp_mock.Common.{
  ◌<◌, ◌≤◌, ◌≡◌, ◌⊎◌, inl, inr, refl, none, some, arith, Bool-cases, ◌||◌,
}
use stockflow_erp_mock.Common.Int.{ℤ, pos, pos_part, leb_ℤ, ltb_ℤ}
use stockflow_erp_mock.Inventory.Errors.{Error, other}
use stockflow_erp_mock.App.FailureMode.{
  Float64, FailureMode, normal, always_reject, random_reject, processing_delay, publish_failure,
  duplicate_response, unsupported, FailureModeSettings, one, set,
}

-- A known mode, with a probability above 0 and up to 1 where it rejects at random, and with a
-- positive delay where it delays.
abbrev pub Allowed : FailureModeSettings → Type 0
Allowed settings = elim settings.mode [
  | random_reject ↦
      (0 < pos_part settings.random_reject_probability)
      × (pos_part settings.random_reject_probability ≤ pos_part one)
  | processing_delay ↦ 0 < pos_part settings.processing_delay
  | unsupported _ ↦ ⊥
  | _ ↦ Unit
]

-- What `Set` does: it holds the settings, which are allowed, or refuses them, which are not.
abbrev pub HoldsAllowed : FailureModeSettings → FailureModeSettings → Type 0
HoldsAllowed settings current =
    ((set settings current ≡ (settings, none)) × Allowed settings)
    ⊎ ((e : Error) × (set settings current ≡ (current, some e)) × ¬ Allowed settings)

set_in :
    (m : FailureMode) (p : Float64) (d : ℤ) (current : FailureModeSettings)
    → HoldsAllowed
        (record { mode = m; random_reject_probability = p; processing_delay = d })
        current
unfolding set one
set_in normal p d current = inl (refl, tt)
set_in always_reject p d current = inl (refl, tt)
set_in publish_failure p d current = inl (refl, tt)
set_in duplicate_response p d current = inl (refl, tt)
set_in (unsupported _) p d current = inr (_, refl, λ a. a)
set_in processing_delay p d current = elim (Bool-cases (leb_ℤ d (pos 0))) [
  | inl e ↦ inr (other "processing delay", rw e refl, λ a. ground (arith, e, a))
  | inr e ↦ inl (rw e refl, ground (arith, e))
]
set_in random_reject p d current = elim (Bool-cases (leb_ℤ p (pos 0) || ltb_ℤ one p)) [
  | inl e ↦ inr (other "random reject probability", rw e refl, λ a. ground (arith, e, a))
  | inr e ↦ inl (rw e refl, ground (arith, e))
]

-- `Set` holds the settings exactly where they are allowed: a known mode, with a probability above 0
-- and up to 1 for random rejects, and a positive delay for delays. Otherwise it returns an error and
-- keeps those it has.
pub set_lem : (settings current : FailureModeSettings) → HoldsAllowed settings current
set_lem settings current =
    set_in settings.mode settings.random_reject_probability settings.processing_delay current
