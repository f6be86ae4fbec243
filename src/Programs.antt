-- ===== src/Programs.antt =====
-- The programs in user space that try the drivers, each with the driver that it is for.
pub mod Driver
pub mod Drivers
pub mod Text
pub mod Echo
pub mod Menu
pub mod Timing
pub mod Polling
pub mod Seconds
mod Tests
