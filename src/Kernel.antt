-- ===== src/Kernel.antt =====
-- What the drivers share of the kernel: error numbers, the value that a file operation returns, and
-- the functions that move bytes, which are not in this repository and stand as parameters.
mod Defs
pub mod Chrdev
pub mod Samples
pub use Defs.*
