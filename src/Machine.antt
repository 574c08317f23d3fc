-- ===== src/Machine.antt =====
-- The memory and the ports of the machine: the maps of src/machine/peripheral/interface.odin, and
-- the accesses of src/machine/machine.odin that they route. An array is a function of its index;
-- a peripheral is its callbacks, which act on the state `S` of all the devices.
pub mod Routes
pub mod MainMemory
mod Tests
use libretro_virtualxt.Base.{
  ℕ, zero, suc, ◌+◌, ◌-◌, ◌*◌, ◌/◌, ◌%◌, ◌^◌, Option, none, some, List, [], ◌∷◌, leb, ltb, ◌==◌,
  if◌then◌else◌, get_or, u8, u16, u32, ◌>>>◌, bit_and, bit_or, truthy,
}
use libretro_virtualxt.Bus.{Bus}

-- The callbacks of a peripheral that take part in an access.
pub record Callbacks (S : Type 0) : Type 0 where
  pub read : S → ℕ → ℕ × S
  pub write : S → ℕ → ℕ → S
  pub io_in : S → ℕ → ℕ × S
  pub io_out : S → ℕ → ℕ → S

-- The callbacks at an index that holds no peripheral. Registration stores only indices of
-- peripherals that exist; past them the source's bounds check stops the program, and here the
-- callbacks do nothing.
abbrev unset : {S : Type 0} → Callbacks S
unset = record {
  read = λ s a. (0, s);
  write = λ s a v. s;
  io_in = λ s a. (0, s);
  io_out = λ s a v. s;
}

-- `peripheral_manager`: the peripherals in order, and for each 16-byte paragraph and each port the
-- index of the one that has it.
pub record Manager (S : Type 0) : Type 0 where
  pub peripherals : List (Callbacks S)
  pub memory_map : ℕ → ℕ
  pub io_map : ℕ → ℕ

abbrev pub store : (ℕ → ℕ) → ℕ → ℕ → ℕ → ℕ
store array i v j = if j == i then v else array j

-- `address`.
unfoldable pub address : ℕ → ℕ → ℕ
address segment offset = u32 (segment * 0x10 + offset)

-- `for from <= to`: the `left` elements from an index on are set.
unfoldable pub fill : (ℕ → ℕ) → ℕ → ℕ → ℕ → ℕ → ℕ
fill array v zero from = array
fill array v (suc left) from = fill (store array from v) v left (from + 1)

module _ {S : Type 0} where
  -- `register_memory_address_range` of the peripheral with an index; `none` is the panic on an
  -- unaligned address.
  unfoldable pub register_memory_address_range : Manager S → ℕ → ℕ → ℕ → Option (Manager S)
  unfolding fill
  register_memory_address_range m pidx from to =
      let pfrom = bit_and (from >>> 4) 0xffff in
      let pto = bit_and (to >>> 4) 0xffff in
      if truthy (bit_and (bit_or from (u32 (to + 1))) 0xf)
      then none
      else some (record m { memory_map = fill m.memory_map (u8 pidx) (pto + 1 - pfrom) pfrom })

  -- `register_io_address_range`, with `register_io_address_at` for each port.
  unfoldable pub register_io_address_range : Manager S → ℕ → ℕ → ℕ → Manager S
  unfolding fill
  register_io_address_range m pidx from to = record m {
    io_map = fill m.io_map (u8 pidx) (to + 1 - from) from;
  }

  abbrev pub peripheral : Manager S → ℕ → Callbacks S
  peripheral m pidx = get_or m.peripherals pidx unset

  -- `read_memory`.
  unfoldable pub read_memory : Manager S → S → ℕ → ℕ × S
  read_memory m s addr =
      let a = bit_and addr 0xfffff in (peripheral m (m.memory_map (a >>> 4))).read s a

  -- `write_memory`.
  unfoldable pub write_memory : Manager S → S → ℕ → ℕ → S
  write_memory m s addr byte =
      let a = bit_and addr 0xfffff in (peripheral m (m.memory_map (a >>> 4))).write s a byte

  -- `read_io_port`.
  unfoldable read_io_port : Manager S → S → ℕ → ℕ × S
  read_io_port m s port = (peripheral m (m.io_map port)).io_in s port

  -- `write_io_port`.
  unfoldable write_io_port : Manager S → S → ℕ → ℕ → S
  write_io_port m s port byte = (peripheral m (m.io_map port)).io_out s port byte

  -- `read` and `write` of `peripheral_interface`.
  abbrev pub bus_of : Manager S → Bus S
  bus_of m = record { read = read_memory m; write = write_memory m }
