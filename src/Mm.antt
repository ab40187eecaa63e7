-- ===== src/Mm.antt =====
-- The memory manager, mm/.
pub mod Page
pub mod Heap
