-- ===== src/Gdb/Session/Laws.antt =====
-- The copies of the registers (src/modules/gdb/gdb.odin) are inverse to each other.
use libretro_virtualxt.Base.{ℕ, ◌+◌, ◌*◌, ◌^◌, ◌<◌, ◌≡◌, refl, u16, u32, sub32, arith}
use libretro_virtualxt.Gdb.Session.{Cpu, load_registers, store_registers, stored_flags}

-- Every register has 16 bits.
abbrev pub IsWide : Cpu → Type 0
IsWide c =
    (c.ax < 2 ^ 16)
    × (c.bx < 2 ^ 16)
    × (c.cx < 2 ^ 16)
    × (c.dx < 2 ^ 16)
    × (c.sp < 2 ^ 16)
    × (c.bp < 2 ^ 16)
    × (c.si < 2 ^ 16)
    × (c.di < 2 ^ 16)
    × (c.cs < 2 ^ 16)
    × (c.ss < 2 ^ 16)
    × (c.ds < 2 ^ 16)
    × (c.es < 2 ^ 16)
    × (c.ip < 2 ^ 16)

same_word : (x : ℕ) → x < 2 ^ 16 → u16 x ≡ x
same_word x h = omega arith

same_offset :
    (seg off : ℕ)
    → seg < 2 ^ 16
    → off < 2 ^ 16
    → u16 (sub32 (u32 (u32 (seg * 16) + off)) (u32 (seg * 16))) ≡ off
same_offset seg off h k = omega arith

-- What `timer` copies to the server and back is unchanged for every register of 16 bits, the
-- instruction pointer and the stack pointer included, which travel as linear addresses; of the
-- flags, the valid ones stay, and the reserved ones take the values that the processor gives
-- them.
pub store-load :
    (c : Cpu)
    → IsWide c
    → store_registers (load_registers c) ≡ record c { flags = stored_flags c.flags }
unfolding store_registers load_registers
store-load c (a, b, cx, d, sp, bp, si, di, cs, ss, ds, es, ip) =
    rw
      (
        same_word c.ax a,
        same_word c.bx b,
        same_word c.cx cx,
        same_word c.dx d,
        same_word c.bp bp,
        same_word c.si si,
        same_word c.di di,
        same_word c.cs cs,
        same_word c.ss ss,
        same_word c.ds ds,
        same_word c.es es,
        same_offset c.ss c.sp ss sp,
        same_offset c.cs c.ip cs ip,
      )
      refl
