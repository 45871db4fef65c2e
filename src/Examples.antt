-- ===== src/Examples.antt =====
-- Concrete inputs at which the theorems apply, grouped as the files that they are about.
pub mod Basics
pub mod Paths
pub mod Trees
pub mod Listeners
pub mod Kernel
pub mod Statistics
pub mod Sockets
pub mod Messages
pub mod Services
pub mod Connections
