-- ===== src/Orders.antt =====
-- apps/orders: creating orders and their lifecycle (services.py).
pub mod Lifecycle
pub mod Creation
pub mod Lines
pub mod Placing
pub mod Placement
pub mod Tests
