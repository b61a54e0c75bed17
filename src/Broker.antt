-- ===== src/Broker.antt =====
-- brokers/paper_broker.py.
pub mod State
pub mod Fills
pub mod Affordable
pub mod Orders
pub mod Place
pub mod Settle
pub mod Cancel
pub use State.*
pub use Fills.*
pub use Affordable.*
pub use Orders.*
