-- ===== src/Server.antt =====
-- src/server: requests, responses, routes and the loop over connections.
pub mod Http
pub mod Url
pub mod Parser
pub mod Router
pub mod Routes
pub mod Handle
pub mod Start
mod Tests
