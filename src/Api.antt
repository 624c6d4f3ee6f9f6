-- ===== src/Api.antt =====
-- internal/api: the server of the dashboard.
pub mod Access
pub mod Export
pub mod Flows
pub mod Totals
pub mod Admin
pub mod RateLimit
pub mod Views
mod HandlerTests
mod Tests
