-- ===== src/Machine/MainMemory.antt =====
-- The main memory of the machine (`Default_Peripheral` of src/machine/machine.odin) fills the
-- interface that the clients of the bus use.
pub mod Laws
use libretro_virtualxt.Base.{ℕ, ◌^◌, ltb, if◌then◌else◌}
use libretro_virtualxt.Machine.{Callbacks, store}

abbrev pub main_memory_size : ℕ
main_memory_size = 0x100000

-- The state of the devices: the main memory, and that of the others.
pub record Devices (R : Type 0) : Type 0 where
  pub memory : ℕ → ℕ
  pub others : R

-- `Default_Peripheral`, the peripheral with the index 0.
abbrev pub default_peripheral : {R : Type 0} → Callbacks (Devices R)
default_peripheral = record {
  read = λ s a. ((if ltb a main_memory_size then s.memory a else 0xff), s);
  write = λ s a v. (if ltb a main_memory_size then record s { memory = store s.memory a v } else s);
  io_in = λ s a. (0xff, s);
  io_out = λ s a v. s;
}
