-- ===== src/App.antt =====
-- internal/app: the handlers of the two kinds of requests, and the failure modes.
pub mod Context
pub mod Reservation
pub mod Release
pub mod FailureMode
pub mod FailureSimulation
