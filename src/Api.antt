-- ===== src/Api.antt =====
-- The routes of backend/src/app.js: what a request does to the server's state and how it is answered.
-- The queries of MongoDB, the packages and the answers of the rate limiters are parameters. A call runs
-- as a whole; the routes for health, readiness, metrics, workers and documents are left out.
pub mod Admin
pub mod Catalog
pub mod Clients
pub mod Guards
pub mod Kept
pub mod Others
pub mod Routes
pub mod Laws
