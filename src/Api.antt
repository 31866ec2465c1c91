-- ===== src/Api.antt =====
-- apps/api/src: the services behind the administration API.
pub mod Keys
pub mod Grants
pub mod Groups
pub mod Calls
