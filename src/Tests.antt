-- ===== src/Tests.antt =====
-- Concrete maps, queues and managers, and the theorems at them.
pub mod Maps
pub mod Queues
pub mod Managers
pub mod Sorting
pub mod Loads
pub mod Locks
pub mod Servers
pub mod Chats
