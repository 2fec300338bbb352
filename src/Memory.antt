-- ===== src/Memory.antt =====
-- internal/storage/memory: the inventory repository and the idempotency store.
pub mod Repository
pub mod Idempotency
