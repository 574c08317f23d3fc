-- ===== src/Ems.antt =====
-- The EMS board, src/modules/ems/ems.odin: four windows of 16 KB into 2 MB. An array is a function
-- of its index. What a program sees of it is in Ems/Pages.antt.
pub mod Pages
mod Tests
use libretro_virtualxt.Base.{
  ℕ, ◌+◌, ◌*◌, ◌/◌, ◌^◌, ◌%◌, ◌-◌, List, ltb, ◌==◌, if◌then◌else◌, get_or, set, u16, u32, sub16,
  sub32, ◌>>>◌, bit_and, Bool, true, false, Option, none, some,
}
use libretro_virtualxt.Machine.{Manager, register_memory_address_range, register_io_address_range}

abbrev pub memory_size : ℕ
memory_size = 0x200000

-- `EMS`.
pub record Ems : Type 0 where
  pub mem : ℕ → ℕ
  pub mem_base : ℕ
  pub io_base : ℕ
  pub page_selectors : List ℕ

-- `physical_address`.
unfoldable pub physical_address : Ems → ℕ → ℕ
physical_address ems addr =
    let frame_addr = sub32 addr ems.mem_base in
    let page_addr = bit_and frame_addr 0x3fff in
    let selector = get_or ems.page_selectors (bit_and (frame_addr >>> 14) 3) 0 in
    u32 (selector * 0x4000 + page_addr)

-- An array with a new element.
abbrev pub store : (ℕ → ℕ) → ℕ → ℕ → ℕ → ℕ
store array i v j = if j == i then v else array j

-- `read`.
unfoldable pub read : Ems → ℕ → ℕ
unfolding physical_address
read ems addr =
    if ltb (physical_address ems addr) memory_size
    then ems.mem (physical_address ems addr)
    else 0xff

-- `write`.
unfoldable pub write : Ems → ℕ → ℕ → Ems
unfolding physical_address
write ems addr byte =
    if ltb (physical_address ems addr) memory_size
    then record ems { mem = store ems.mem (physical_address ems addr) byte }
    else ems

-- `io_in`.
unfoldable pub io_in : Ems → ℕ → ℕ
io_in ems port = 0xff

-- `io_out`.
unfoldable pub io_out : Ems → ℕ → ℕ → Ems
io_out ems port byte =
    let sel = sub16 port ems.io_base in
    record ems { page_selectors = set ems.page_selectors (bit_and sel 3) byte }

-- The messages of `config`, and what it returns for a message to the board.
pub data Setting : Type 0 where
  address : ℕ → Setting
  port : ℕ → Setting
  other : Setting

unfoldable pub config : Setting → Ems → Bool × Ems
config (address base) ems = (true, record ems { mem_base = base })
config (port base) ems = (true, record ems { io_base = base })
config other ems = (false, ems)

-- `install`: the frame of 64 KB and the four ports; none if the frame is unaligned.
unfoldable pub install : {S : Type 0} → Manager S → ℕ → Ems → Option (Manager S)
install m pidx ems =
    elim (register_memory_address_range m pidx ems.mem_base (u32 (ems.mem_base + 0xffff))) [
      | none ↦ none
      | some m' ↦ some (register_io_address_range m' pidx ems.io_base (u16 (ems.io_base + 3)))
    ]
