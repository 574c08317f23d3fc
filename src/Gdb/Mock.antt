-- ===== src/Gdb/Mock.antt =====
-- The buffers of the mock system of src/modules/gdb/gdbstub/gdbstub.h, on which the stub is
-- tried out without a machine. A pointer that is not NULL is the list of the bytes it points to.
-- What `malloc` and `realloc` leave in new memory is the argument `fresh`; they do not fail. A
-- write past the end of the memory changes nothing.
use libretro_virtualxt.Base.{
  ℕ, zero, suc, ◌+◌, ◌-◌, ◌*◌, Option, none, some, List, [], ◌∷◌, ◌++◌, ◌==◌, if◌then◌else◌, leb,
  ltb, u8, u32, length, take, set, get_or,
}
pub mod Queue
mod Tests

-- `struct gdb_buffer`.
pub record Buffer : Type 0 where
  pub buf : Option (List ℕ)
  pub pos_write : ℕ
  pub pos_read : ℕ
  pub size : ℕ

-- New memory of `n` bytes.
abbrev pub malloc : (ℕ → ℕ) → ℕ → List ℕ
malloc fresh zero = []
malloc fresh (suc n) = fresh n ∷ malloc fresh n

-- The memory with the length `n`: its bytes as far as they fit, and new memory behind them.
abbrev pub realloc : (ℕ → ℕ) → List ℕ → ℕ → List ℕ
realloc fresh bytes n = take n bytes ++ malloc fresh (n - length bytes)

-- The part of `gdb_buf_write` that makes room.
unfoldable pub make_room : (ℕ → ℕ) → Buffer → Buffer
make_room fresh b = elim b.buf [
  | none ↦ record { buf = some (malloc fresh 512); pos_write = 0; pos_read = 0; size = 512 }
  | some bytes ↦
      if leb b.size b.pos_write
      then record b { size = u32 (b.size * 2); buf = some (realloc fresh bytes (u32 (b.size * 2))) }
      else b
]

-- The part of `gdb_buf_write` that stores the character.
unfoldable pub store_char : Buffer → ℕ → Buffer
store_char b ch = elim b.buf [
  | none ↦ b
  | some bytes ↦ record b {
    buf = some (set bytes b.pos_write (u8 ch));
    pos_write = u32 (b.pos_write + 1);
  }
]

-- `gdb_buf_write`.
unfoldable pub buf_write : (ℕ → ℕ) → Buffer → ℕ → Buffer
buf_write fresh b ch = store_char (make_room fresh b) ch

-- `gdb_buf_read`. The buffer holds signed characters, so the byte 0xff gives `EOF`, here `none`.
unfoldable pub buf_read : Buffer → Option ℕ × Buffer
buf_read b = elim b.buf [
  | none ↦ (none, b)
  | some bytes ↦
      let ch = get_or bytes b.pos_read 0 in
      if ltb b.pos_read b.pos_write
      then ((if ch == 0xff then none else some ch), record b { pos_read = u32 (b.pos_read + 1) })
      else (none, b)
]

-- `gdb_mem`, and the two buffers.
pub record Mock : Type 0 where
  pub mem : List ℕ
  pub input : Buffer
  pub output : Buffer

abbrev mem_size : ℕ
mem_size = 256

-- `gdb_sys_putchar` and `gdb_sys_getc`, on the buffers.
unfoldable sys_putchar : (ℕ → ℕ) → Mock → ℕ → Mock
unfolding buf_write
sys_putchar fresh s ch = record s { output = buf_write fresh s.output ch }

unfoldable pub sys_getc : Mock → Option ℕ × Mock
unfolding buf_read
sys_getc s = let (ch, b) = buf_read s.input in (ch, record s { input = b })

-- `gdb_sys_mem_readb` and `gdb_sys_mem_writeb`: none for an error.
unfoldable pub sys_mem_readb : Mock → ℕ → Option ℕ
sys_mem_readb s addr = if leb mem_size addr then none else some (get_or s.mem addr 0)

unfoldable pub sys_mem_writeb : Mock → ℕ → ℕ → Option Mock
sys_mem_writeb s addr val =
    if leb mem_size addr then none else some (record s { mem = set s.mem addr (u8 val) })
