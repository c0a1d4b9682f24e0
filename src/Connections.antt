-- ===== src/Connections.antt =====
-- The connections of the backend's processes: backend/src/config/database.js, backend/src/config/redis.js
-- and backend/src/server.js.
pub mod Database
pub mod Redis
pub mod Application
