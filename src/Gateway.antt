-- ===== src/Gateway.antt =====
-- packages/gateway-core: the decisions of the gateway that need no request.
pub mod Routing
pub mod Schedule
pub mod Cost
pub mod Health
pub mod Access
pub mod Usage
