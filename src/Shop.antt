-- ===== src/Shop.antt =====
-- The shop: app/modules/shop.
pub mod Purchase
pub mod Consumables
