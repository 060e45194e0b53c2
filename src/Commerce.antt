-- ===== src/Commerce.antt =====
-- apps/commerce: stock on hand, timed reservations and the operations that move them
-- (services.py over models.py). The theorems are in the modules below.
pub mod Models
pub mod Projections
pub mod Services
pub mod Coverage
pub mod NoOversell
pub mod Release
pub mod Consumption
pub mod Availability
pub mod Finality
pub mod History
pub mod Tests
pub use Models.*
unfoldable pub use Services.*
