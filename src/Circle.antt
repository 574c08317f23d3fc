-- ===== src/Circle.antt =====
-- The frontend for the Raspberry Pi, tools/circle/kernel: kernel.cpp with kernel.h, emuloop.cpp
-- with emuloop.h, and main.cpp. The Circle and FatFs libraries that it calls are not part of the
-- repository.
pub mod Cores
pub mod Environment
pub mod Kernel
pub mod Lock
pub mod Run
pub mod Screen
pub mod Vfs
mod Tests
