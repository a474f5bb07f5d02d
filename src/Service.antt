-- ===== src/Service.antt =====
-- backend/internal/services: validation and permissions over the repositories.
pub mod Rooms
pub mod Members
pub mod Messages
pub mod Calls
pub mod Users
