-- ===== src/Dns.antt =====
-- lars_dns: the DNS service, which keeps the routes of the database in memory and tells the agents
-- of changes.
pub mod Route
pub mod Subscribe
pub mod Service
pub mod System
mod Tests
mod SystemTests
