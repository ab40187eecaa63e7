-- ===== src/Libk.antt =====
-- The kernel library, libk/: numbers to text and back.
pub mod Ctype
pub mod Ultostr
pub mod Strtoul
pub mod RoundTrip
pub mod Strings
mod Tests
