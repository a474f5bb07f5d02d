-- ===== src/Repository.antt =====
-- backend/internal/repositories: the SQL of each repository method on the tables.
pub mod Conversations
pub mod Participants
pub mod Listing
pub mod Messages
pub mod Users
pub mod Reverse
pub mod Pages
