-- ===== src/Lib.antt =====
-- A verification library of the VirtualXT emulator.
--
-- The emulator is a machine of peripherals behind a memory map and a port map, a processor that
-- reaches them through these maps, and a frontend. This library models the parts below. Bytes,
-- words and addresses are natural numbers with the wrap of their width written out; an array is a
-- list, or a function of its index where it is large; state is passed explicitly.
--
-- The debugger server, src/modules/gdb. Gdb/Digits.antt has the digits and numbers of
-- gdbstub/gdbstub.h (gdb_get_digit, gdb_get_val, gdb_strtol), Gdb/Codec.antt its checksum and its
-- codecs (gdb_enc_hex, gdb_dec_hex, gdb_enc_bin, gdb_dec_bin), Gdb/Link.antt the sockets of gdb.c,
-- Gdb/Packet.antt the packets (gdb_send_packet, gdb_recv_packet, gdb_recv_ack, gdb_pkt_prefix),
-- Gdb/Command.antt the tokens, memory accesses and answers of gdb_main, and Gdb/Main.antt its
-- commands and its loop. The state struct gdb_state is GdbState: its flag noack is a Boolean, a
-- descriptor -1 is `none`, and the connection is part of it, as the bytes that recv will deliver
-- before it fails and the number of bytes that send will accept before it fails. A char is its
-- byte. A pointer into a buffer is the list of the characters from it to the end of the buffer,
-- and a read past the end is the value `fault`. What an uninitialised array holds is the argument
-- `stack`. The pieces of gdb.odin that the stub calls (gdb_sys_mem_readb, gdb_sys_mem_writeb,
-- gdb_sys_continue, gdb_sys_insert) act on a bus. Gdb/Session.antt has the copies of the processor's
-- registers that timer of gdb.odin makes before and after gdb_main, and Gdb/Timer.antt timer itself,
-- install and config. Gdb/Mock.antt has the buffers of the stub's mock system (gdb_buf_write, gdb_buf_read) and its memory, and Gdb/X86.antt the
-- bare-metal x86 system: gates, the debug interrupt (gdb_x86_interrupt) and the serial port; the
-- stub that the interrupt calls is any function there, so that the theorem holds for each.
--
-- The bus, Bus.antt, is the interface between the machine and its clients: operations, and the
-- laws of plain memory. Machine.antt models the maps of src/machine/peripheral/interface.odin
-- (register_memory_address_range, register_io_address_range) and the accesses of
-- src/machine/machine.odin (read_memory, write_memory, read_io_port, write_io_port); a peripheral
-- is its callbacks on the state of all devices. Machine/MainMemory.antt is its main memory, which
-- fills the laws of the bus.
--
-- The chipset, src/modules/chipset: Chipset/Pic.antt is pic.odin, Chipset/Dma.antt is dma.odin,
-- Chipset/Pit.antt is pit.odin and Chipset/Ppi.antt is ppi.odin, with the scan codes in
-- Chipset/Ppi/Keys.antt.
-- Ems.antt is the EMS board of src/modules/ems/ems.odin.
--
-- The disk controller, src/modules/disk/disk.odin: Disk.antt has its drives, the transfer of
-- sectors (execute_operation) and the functions of interrupt 0x13 (io_out, io_in), Disk/Mount.antt
-- the geometry and the mounting of images (mount_disk, config, destroy). The file system of the
-- frontend is a record of functions; Disk/Image.antt says what it does with an image,
-- where the number that a seek returns is left open. Disk/OnCircle.antt has the files of the
-- Raspberry Pi in that place. Memory is reached over the bus.
--
-- The processor, src/machine/processor: Processor/Flags.antt has the flags and the parity table of
-- flags.odin, as a record of Booleans, and Processor/Alu.antt the arithmetic of alu.odin, one
-- function for the byte form and the word form of an operation, which take and give the flags;
-- Processor/Shift.antt has its shifts and rotations.
--
-- The frontend for the Raspberry Pi, tools/circle/kernel. Circle/Vfs.antt has the file handles of
-- kernel.cpp, Circle/Environment.antt its answers to the core and its log, Circle/Kernel.antt its
-- class CKernel, Circle/Run.antt the whole of CKernel::Run and main.cpp. Circle/Cores.antt has the
-- threads of emuloop.cpp, Circle/Lock.antt all four cores with their spin lock, as a step relation,
-- and Circle/Screen.antt video_refresh. A thread is a function from what it meets in each turn of
-- its loop, the clock and the devices, to the events of its core. FatFs is a record of functions,
-- whose documented behaviour is a hypothesis; the answers of Circle are arguments.
--
-- Loops over a length or an index recurse on what is left of it. The loops that wait for the
-- client, in gdb_recv_packet and gdb_main, take fuel: the connection delivers finitely many bytes
-- before it fails, every turn takes at least one, and so one more than these is enough. Waiting for
-- the serial port takes fuel too: the status reads until it is ready, and one more, are enough. The
-- sessions of timer take one unit for each memory dump that the client asks for, and one more.
--
-- Not modelled: the rest of the processor, the parts of the timer and keyboard chips that compute
-- in floating point, the file server and the other devices; rendering, the sound devices and the
-- desktop frontend, which are input and output; the demo of the stub, which the emulator does not
-- build; libretro.h, which is another project's.
--
-- Base.antt has what the components share: lists, tests, words, and the laws of the bit operations.
pub mod Base
pub mod Bus
pub mod Gdb
pub mod Chipset
pub mod Circle
pub mod Disk
pub mod Ems
pub mod Machine
pub mod Processor
