-- ===== src/Gdb.antt =====
-- The GDB server, src/modules/gdb: the remote serial protocol of gdbstub/gdbstub.h, the sockets
-- of gdb.c and the peripheral of gdb.odin.
pub mod Digits
pub mod Codec
pub mod Link
pub mod Packet
pub mod Command
pub mod Main
pub mod Session
pub mod Timer
pub mod Mock
pub mod X86
mod Tests
