-- ===== src/Memory.antt =====
-- memory/: the shared helpers of mem.h, the static planner, the arena and the buddy allocator.
pub mod Align
pub mod Planner
pub mod Arena
pub mod Buddy
mod Tests
