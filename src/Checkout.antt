-- ===== src/Checkout.antt =====
-- apps/checkout: prices, shipping zones, and sessions that hold stock (services.py).
pub mod Pricing
pub mod Delivery
pub mod Rounding
pub mod Sessions
pub mod Offers
pub mod Reads
pub mod Cover
pub mod Tests
pub mod Holds
pub mod Readiness
pub mod Finalize
pub mod Zones
