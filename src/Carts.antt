-- ===== src/Carts.antt =====
-- apps/cart: the lines a user wants to buy (services.py).
pub mod Services
pub mod Contents
pub mod Tidy
pub mod Effects
pub mod Relining
pub mod Lines
pub mod Refinement
pub mod Clamp
pub mod Limits
pub mod Looked
pub mod ClampLoop
pub mod Clamping
pub mod Merge
pub mod Dicts
pub mod Merging
pub mod Tests
