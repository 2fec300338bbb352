-- ===== src/Tests.antt =====
-- Runs of the definitions on concrete inputs, and the theorems at such inputs.
mod Repository
mod Handlers
mod Messages
mod DeadLetters
mod Concurrent
mod Http
mod Service
mod Process
