-- ===== src/Agent.antt =====
-- lars_lb_agent: the agent that hands out hosts and judges them by the results reported.
pub mod Config
pub mod Messages
pub mod HostInfo
pub mod LoadBalance
pub mod RouteLb
pub mod Wiring
mod Tests
