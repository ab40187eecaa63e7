-- ===== src/Drivers.antt =====
-- The device drivers, platform/i386/drivers/.
pub mod Chs
mod Tests
