-- ===== src/Inventory.antt =====
-- internal/domain/inventory: the stock items, the reservations and the rules between them.
pub mod Errors
pub mod Model
pub mod Service
pub mod Laws
