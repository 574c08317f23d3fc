-- ===== src/Gdb/Command.antt =====
-- The pieces of `gdb_main` (src/modules/gdb/gdbstub/gdbstub.h): the tokens of a command, the
-- access to memory and registers, and the answers. `bad` is the jump to the label `error`, and
-- `fault` a read past the end of the packet buffer.
pub mod Memory
pub mod Registers
use libretro_virtualxt.Base.{
  ℕ, zero, suc, ◌+◌, ◌-◌, ◌*◌, ◌/◌, ◌%◌, ◌^◌, Bool, true, false, Option, none, some, List, [], ◌∷◌,
  ◌++◌, length, ltb, ◌==◌, if◌then◌else◌, get_or, set, take, drop, u8, u32, sub32,
}
use libretro_virtualxt.Bus.{Bus}
use libretro_virtualxt.Gdb.Digits
use libretro_virtualxt.Gdb.Digits.{Access, Strtol, strlen, strtol}
use libretro_virtualxt.Gdb.Codec.{Decoded, enc_hex}
use libretro_virtualxt.Gdb.Link.{GdbState}
use libretro_virtualxt.Gdb.Packet.{Ack, eof, send_packet}

-- `ptr_next`: the characters from it to the end of `pkt_buf`, and its offset in `pkt_buf`.
pub record Cursor : Type 0 where
  pub rest : List ℕ
  pub pos : ℕ

pub data Parse {ℓ} (A : Type ℓ) : Type ℓ where
  ok : A → Parse A
  bad fault : Parse A

infixl 5 ◌>>=◌
abbrev pub ◌>>=◌ {ℓ κ} : {A : Type ℓ} {B : Type κ} → Parse A → (A → Parse B) → Parse B
ok a >>= f = f a
bad >>= f = bad
fault >>= f = fault

abbrev pub start_of : List ℕ → Cursor
start_of buf = record { rest = buf; pos = 0 }

-- `ptr_next += n`.
abbrev pub skip : ℕ → Cursor → Cursor
skip n c = record { rest = drop n c.rest; pos = c.pos + n }

-- `token_remaining_buf`, an `unsigned` that wraps.
abbrev pub remaining : ℕ → Cursor → ℕ
remaining pkt_len c = sub32 pkt_len c.pos

-- `token_expect_seperator`.
unfoldable pub expect_seperator : ℕ → Cursor → Parse Cursor
expect_seperator sep c = elim c.rest [
  | [] ↦ fault
  | x ∷ xs ↦ if x == sep then ok (skip 1 c) else bad
]

-- `token_expect_integer_arg`: the number, as its 32-bit pattern, and the pointer behind it.
unfoldable pub expect_integer : ℕ → Cursor → Parse (ℕ × Cursor)
expect_integer pkt_len c = elim (strtol c.rest (remaining pkt_len c) 16) [
  | Digits.fault ↦ fault
  | Digits.ok r ↦ elim r.endptr [ none ↦ bad | some n ↦ ok (r.value, skip n c) ]
]

-- Two integers with `,` between them, as `m`, `M` and `X` begin.
unfoldable pub expect_range : ℕ → Cursor → Parse (ℕ × ℕ × Cursor)
expect_range pkt_len c = do
  (addr, c₁) ← expect_integer pkt_len c
  c₂ ← expect_seperator b',' c₁
  (len, c₃) ← expect_integer pkt_len c₂
  ok (addr, len, c₃)

-- Three integers with `,` between them, the arguments of `Z` and `z`.
unfoldable pub expect_breakpoint : ℕ → Cursor → Parse (ℕ × ℕ × ℕ)
expect_breakpoint pkt_len c = do
  (ty, c₁) ← expect_integer pkt_len c
  c₂ ← expect_seperator b',' c₁
  (addr, len, c₃) ← expect_range pkt_len c₂
  ok (ty, addr, len)

-- A write of bytes at the start of a buffer.
abbrev pub overlay : List ℕ → List ℕ → List ℕ
overlay bytes buf = bytes ++ drop (length bytes) buf

-- The bytes of a register, lowest first, and back.
unfoldable pub word_bytes : ℕ → List ℕ
word_bytes w = w % 2 ^ 8 ∷ w / 2 ^ 8 % 2 ^ 8 ∷ w / 2 ^ 16 % 2 ^ 8 ∷ w / 2 ^ 24 % 2 ^ 8 ∷ []

unfoldable pub bytes_of : List ℕ → List ℕ
unfolding word_bytes
bytes_of [] = []
bytes_of (w ∷ ws) = word_bytes w ++ bytes_of ws

unfoldable pub words_of : List ℕ → List ℕ
words_of (a ∷ b ∷ c ∷ d ∷ bytes) = (a + b * 2 ^ 8 + c * 2 ^ 16 + d * 2 ^ 24) ∷ words_of bytes
words_of _ = []

-- `GDB_CPU_NUM_REGISTERS`, `sizeof(state->registers)`, `sizeof(pkt_buf)`, and the size of the
-- array `data` of `gdb_mem_read` and `gdb_mem_write`.
abbrev pub num_registers : ℕ
num_registers = 16

abbrev pub registers_size : ℕ
registers_size = 64

abbrev pub pkt_buf_size : ℕ
pkt_buf_size = 256

abbrev data_size : ℕ
data_size = 64

-- The array `data` after the decoder: what it wrote, then what the stack held before.
abbrev pub data_array : (ℕ → ℕ) → ℕ → List ℕ → ℕ → List ℕ
data_array stack pos written zero = []
data_array stack pos [] (suc len) = stack pos ∷ data_array stack (pos + 1) [] len
data_array stack pos (b ∷ written) (suc len) = b ∷ data_array stack (pos + 1) written len

-- What the server works on: its own state, the devices of the machine, and the flag `debug` of
-- the processor's registers.
pub record Target (D : Type 0) : Type 0 where
  pub gdb : GdbState
  pub mem : D
  pub debug : Bool

module _ {D : Type 0} where
  -- A packet is sent, and the result ignored, as `gdb_main` does.
  abbrev pub send : Target D → List ℕ → Target D
  send t pkt = record t { gdb = (send_packet t.gdb pkt).1 }

  -- `gdb_send_ok_packet`.
  unfoldable pub send_ok_packet : Target D → Target D
  send_ok_packet t = send t (b'O' ∷ b'K' ∷ [])

  -- A letter and the two digits of a byte, composed in the packet buffer: `pkt_buf` and the state.
  unfoldable pub send_letter_packet : ℕ → List ℕ → Target D → ℕ → List ℕ × Target D
  send_letter_packet letter buf t value =
      if ltb pkt_buf_size 4 then (buf, t) else elim (enc_hex (pkt_buf_size - 1) (u8 value ∷ [])) [
        | none ↦ (overlay (letter ∷ []) buf, t)
        | some cs ↦ (overlay (letter ∷ cs) buf, send t (letter ∷ cs))
      ]

  -- `gdb_send_signal_packet`.
  unfoldable pub send_signal_packet : List ℕ → Target D → ℕ → List ℕ × Target D
  unfolding send_letter_packet
  send_signal_packet buf t signal = send_letter_packet b'S' buf t signal

  -- `gdb_send_error_packet`.
  unfoldable pub send_error_packet : List ℕ → Target D → ℕ → List ℕ × Target D
  unfolding send_letter_packet
  send_error_packet buf t error = send_letter_packet b'E' buf t error

  -- `gdb_send_conmsg_packet`: what it returns and the state.
  unfoldable send_conmsg_packet : ℕ → Target D → List ℕ → Ack × Target D
  unfolding strlen
  send_conmsg_packet buf_len t msg =
      if ltb buf_len 2 then (eof, t) else elim (enc_hex (buf_len - 1) (take (strlen msg) msg)) [
        | none ↦ (eof, t)
        | some cs ↦ ((send_packet t.gdb (b'O' ∷ cs)).0, send t (b'O' ∷ cs))
      ]

  module _ (bus : Bus D) where
    -- `gdb_sys_mem_readb` (gdb.odin): 0, and the byte.
    unfoldable pub sys_mem_readb : Target D → ℕ → ℕ × ℕ × Target D
    sys_mem_readb t addr = let (b, d) = bus.read t.mem addr in (0, b, record t { mem = d })

    -- `gdb_sys_mem_writeb` (gdb.odin).
    unfoldable pub sys_mem_writeb : Target D → ℕ → ℕ → ℕ × Target D
    sys_mem_writeb t addr val = (0, record t { mem = bus.write t.mem addr val })

    -- The reading loop of `gdb_mem_read`, with `len - pos` bytes left.
    unfoldable pub read_loop : Target D → ℕ → ℕ → Option (List ℕ) × Target D
    unfolding sys_mem_readb
    read_loop t addr zero = (some [], t)
    read_loop t addr (suc left) =
        let (failed, b, t') = sys_mem_readb t addr in
        elim (failed == 0) [
          | false ↦ (none, t')
          | true ↦
              let (bs, t'') = read_loop t' (u32 (addr + 1)) left in
              ((elim bs [ none ↦ none | some bytes ↦ some (b ∷ bytes) ]), t'')
        ]

    -- `gdb_mem_read`, with the encoder `gdb_enc_hex`, the only one that is passed to it.
    unfoldable pub mem_read : Target D → ℕ → ℕ → ℕ → Option (List ℕ) × Target D
    unfolding read_loop
    mem_read t buf_len addr len =
        if ltb data_size len
        then (none, t)
        else let (bs, t') = read_loop t addr len in
          ((elim bs [ none ↦ none | some bytes ↦ enc_hex buf_len bytes ]), t')

    -- The writing loop of `gdb_mem_write`: true if no byte fails.
    unfoldable pub write_loop : Target D → ℕ → List ℕ → Bool × Target D
    unfolding sys_mem_writeb
    write_loop t addr [] = (true, t)
    write_loop t addr (b ∷ bytes) =
        let (failed, t') = sys_mem_writeb t addr b in
        elim (failed == 0) [ false ↦ (false, t') | true ↦ write_loop t' (u32 (addr + 1)) bytes ]

    -- What `gdb_mem_write` does with the result of the decoder; `stack` is what the uninitialised
    -- array `data` holds.
    abbrev pub store_decoded : (ℕ → ℕ) → Target D → ℕ → ℕ → Access Decoded → Parse (Bool × Target D)
    store_decoded stack t addr len Digits.fault = fault
    store_decoded stack t addr len (Digits.ok r) =
        ok (if r.done then write_loop t addr (data_array stack 0 r.bytes len) else (false, t))

    -- `gdb_mem_write` with a decoder.
    unfoldable pub mem_write :
        (ℕ → ℕ)
        → (List ℕ → ℕ → ℕ → Access Decoded)
        → Target D
        → List ℕ
        → ℕ
        → ℕ
        → ℕ
        → Parse (Bool × Target D)
    unfolding write_loop
    mem_write stack dec t buf buf_len addr len =
        if ltb data_size len
        then ok (false, t)
        else store_decoded stack t addr len (dec buf buf_len len)
