-- ===== src/Whole.antt =====
-- The programs of Lars put together: a host on its way from the database over lars_dns
-- (lars_dns/src) and lars_lb_agent (lars_lb_agent/src) to a caller, and its counts on their way from the
-- agent over lars_reporter (lars_reporter/src) to the database. The network delivers the messages.
pub mod Routes
pub mod Reports
mod Tests
