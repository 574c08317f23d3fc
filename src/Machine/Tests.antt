-- ===== src/Machine/Tests.antt =====
-- The maps of the machine at concrete inputs.
use libretro_virtualxt.Base.{ℕ, ◌≡◌, refl, ◌<◌, [], ◌∷◌, some, arith, ◌&&◌, ◌^◌, if◌then◌else◌, leb}
use libretro_virtualxt.Machine.{
  Manager, register_memory_address_range, read_memory, write_memory, peripheral,
}
use libretro_virtualxt.Machine.MainMemory.{Devices, default_peripheral}
use libretro_virtualxt.Machine.Routes.{registered}

-- The main memory, and a peripheral that reads as 0x7f.
abbrev manager : Manager (Devices Unit)
manager = record {
  peripherals =
      default_peripheral
      ∷ record {
        read = λ s a. (0x7f, s);
        write = λ s a v. s;
        io_in = λ s a. (0, s);
        io_out = λ s a v. s;
      }
      ∷ [];
  memory_map = λ a. 0;
  io_map = λ a. 0;
}

registered_example :
    (m' : Manager (Devices Unit)) × (register_memory_address_range manager 1 0xd0000 0xdffff
      ≡ some m')
    × ((s : Devices Unit) (a : ℕ)
        → a < 2 ^ 20
        → read_memory m' s a ≡ (
            if leb 0xd0000 a && leb a 0xdffff
            then (peripheral manager 1).read s a
            else read_memory manager s a))
    × ((s : Devices Unit) (a v : ℕ)
        → a < 2 ^ 20
        → write_memory m' s a v ≡ (
            if leb 0xd0000 a && leb a 0xdffff
            then (peripheral manager 1).write s a v
            else write_memory manager s a v))
registered_example =
    registered manager 1 0xd0000 0xdffff (omega arith) refl refl (omega arith) (omega arith)
