-- ===== src/Gdb/Session.antt =====
-- The registers of the processor as the debugger sees them: what `timer` of
-- src/modules/gdb/gdb.odin copies to the server before it calls `gdb_main`, and back after it.
pub mod Laws
use libretro_virtualxt.Base.{ℕ, ◌+◌, ◌*◌, List, [], ◌∷◌, get_or, u16, u32, sub32, bit_and, bit_or}

-- The registers of `Peripheral_CPU_Registers` that are copied; the flags are their 16-bit pattern.
pub record Cpu : Type 0 where
  pub ax : ℕ
  pub bx : ℕ
  pub cx : ℕ
  pub dx : ℕ
  pub sp : ℕ
  pub bp : ℕ
  pub si : ℕ
  pub di : ℕ
  pub cs : ℕ
  pub ss : ℕ
  pub ds : ℕ
  pub es : ℕ
  pub ip : ℕ
  pub flags : ℕ

-- `VALID_FLAGS`, and the reserved flags that are set.
abbrev valid_flags : ℕ
valid_flags = 0xfd5

abbrev reserved_flags : ℕ
reserved_flags = 0xf002

-- The server's registers, in the order of `GDB_Register`.
unfoldable pub load_registers : Cpu → List ℕ
load_registers c =
    c.ax
    ∷ c.cx
    ∷ c.dx
    ∷ c.bx
    ∷ u32 (u32 (c.ss * 16) + c.sp)
    ∷ c.bp
    ∷ c.si
    ∷ c.di
    ∷ u32 (u32 (c.cs * 16) + c.ip)
    ∷ c.flags
    ∷ c.cs
    ∷ c.ss
    ∷ c.ds
    ∷ c.es
    ∷ 0
    ∷ 0
    ∷ []

-- The flags that are stored.
abbrev pub stored_flags : ℕ → ℕ
stored_flags ps = bit_or (bit_and (u16 ps) valid_flags) reserved_flags

-- The processor's registers from the server's.
unfoldable pub store_registers : List ℕ → Cpu
store_registers regs = record {
  ax = u16 (get_or regs 0 0);
  bx = u16 (get_or regs 3 0);
  cx = u16 (get_or regs 1 0);
  dx = u16 (get_or regs 2 0);
  sp = u16 (sub32 (get_or regs 4 0) (u32 (get_or regs 11 0 * 16)));
  bp = u16 (get_or regs 5 0);
  si = u16 (get_or regs 6 0);
  di = u16 (get_or regs 7 0);
  cs = u16 (get_or regs 10 0);
  ss = u16 (get_or regs 11 0);
  ds = u16 (get_or regs 12 0);
  es = u16 (get_or regs 13 0);
  ip = u16 (sub32 (get_or regs 8 0) (u32 (get_or regs 10 0 * 16)));
  flags = stored_flags (get_or regs 9 0);
}
