-- ===== src/Gdb/Main.antt =====
-- `gdb_main` of src/modules/gdb/gdbstub/gdbstub.h: one function for each command, the dispatch on
-- the first character of a packet, and the loop over packets. The loop takes fuel; Main/Fuel.antt
-- shows that the number of bytes to come is enough.
pub mod Fuel
pub mod Ends
pub mod Registers
use libretro_virtualxt.Base.{
  ℕ, zero, suc, ◌+◌, ◌-◌, ◌^◌, Bool, true, false, Option, none, some, List, [], ◌∷◌, ◌++◌, length,
  ltb, ◌==◌, if◌then◌else◌, get_or, set, drop,
}
use libretro_virtualxt.Bus.{Bus}
use libretro_virtualxt.Gdb.Digits
use libretro_virtualxt.Gdb.Digits.{Access}
use libretro_virtualxt.Gdb.Codec.{Decoded, enc_hex, dec_hex, dec_bin}
use libretro_virtualxt.Gdb.Link.{GdbState}
use libretro_virtualxt.Gdb.Packet.{recv_packet, pkt_prefix}
use libretro_virtualxt.Gdb.Command.{
  Cursor, Parse, ok, bad, fault, ◌>>=◌, start_of, skip, remaining, expect_seperator, expect_integer,
  expect_range, expect_breakpoint, overlay, word_bytes, bytes_of, words_of, num_registers,
  registers_size, pkt_buf_size, Target, send, send_ok_packet, send_signal_packet, send_error_packet,
  mem_read, mem_write,
}

-- What a command leads to: the next packet with the packet buffer and the state, the label
-- `error`, a return from `gdb_main` with the 32-bit pattern of its value, or a fault.
pub data Next (D : Type 0) : Type 0 where
  again : List ℕ → Target D → Next D
  error : List ℕ → Target D → Next D
  return : ℕ → Target D → Next D
  crash : Next D

abbrev minus_one : ℕ
minus_one = 2 ^ 32 - 1

-- The commands with a name.
abbrev pub kill : List ℕ
kill = b'v' ∷ b'K' ∷ b'i' ∷ b'l' ∷ b'l' ∷ []

abbrev pub supported : List ℕ
supported = b'q' ∷ b'S' ∷ b'u' ∷ b'p' ∷ b'p' ∷ b'o' ∷ b'r' ∷ b't' ∷ b'e' ∷ b'd' ∷ []

abbrev pub start_no_ack_mode : List ℕ
start_no_ack_mode =
    b'Q' ∷ b'S' ∷ b't' ∷ b'a' ∷ b'r' ∷ b't' ∷ b'N' ∷ b'o' ∷ b'A' ∷ b'c' ∷ b'k' ∷ b'M' ∷ b'o' ∷ b'd'
    ∷ b'e' ∷ []

-- The answer to `qSupported`.
abbrev pub supported_answer : List ℕ
supported_answer = start_no_ack_mode ++ b'+' ∷ []

module _ {D : Type 0} where
  -- The registers with new contents.
  abbrev pub with_registers : Target D → List ℕ → Target D
  with_registers t ws = record t { gdb = record t.gdb { registers = ws } }

  -- Go on with what a command has read, or with the error, or fault.
  unfoldable pub parsed : {A : Type 0} → Parse A → List ℕ → Target D → (A → Next D) → Next D
  parsed (ok a) buf t f = f a
  parsed bad buf t f = error buf t
  parsed fault buf t f = crash

  -- An encoded answer, which has been written to the packet buffer.
  unfoldable pub answer : Option (List ℕ) → List ℕ → Target D → Next D
  answer none buf t = error buf t
  answer (some out) buf t = again (overlay out buf) (send t out)

  -- What a decoder that writes to the registers leads to: the bytes that it has written before an
  -- error stay.
  unfoldable pub decoded : Access Decoded → List ℕ → (List ℕ → Target D) → Next D
  unfolding send_ok_packet
  decoded Digits.fault buf store = crash
  decoded (Digits.ok r) buf store =
      if r.done then again buf (send_ok_packet (store r.bytes)) else error buf (store r.bytes)

  -- Read Registers: `g`.
  unfoldable pub read_registers : List ℕ → Target D → Next D
  unfolding bytes_of
  read_registers buf t = answer (enc_hex pkt_buf_size (bytes_of t.gdb.registers)) buf t

  -- Write Registers: `G XX...`.
  unfoldable pub write_registers : List ℕ → ℕ → Target D → Next D
  unfolding bytes_of words_of send_ok_packet
  write_registers buf pkt_len t =
      decoded (dec_hex (drop 1 buf) (pkt_len - 1) registers_size) buf
        λ bytes. with_registers t (words_of (overlay bytes (bytes_of t.gdb.registers)))

  -- Read a Register: `p n`.
  unfoldable pub read_register : List ℕ → ℕ → Target D → Next D
  unfolding word_bytes
  read_register buf pkt_len t =
      parsed (expect_integer pkt_len (skip 1 (start_of buf))) buf t λ (addr, c).
        if ltb addr num_registers
        then answer (enc_hex pkt_buf_size (word_bytes (get_or t.gdb.registers addr 0))) buf t
        else error buf t

  -- The register with the bytes that were decoded in front of its own.
  abbrev pub patch_register : Target D → ℕ → List ℕ → Target D
  patch_register t addr bytes = with_registers t (
      set t.gdb.registers addr
        (get_or (words_of (overlay bytes (word_bytes (get_or t.gdb.registers addr 0)))) 0 0))

  -- Write a Register: `P n...=r...`. A register number out of range is answered with `OK`.
  unfoldable pub write_register : List ℕ → ℕ → Target D → Next D
  unfolding word_bytes words_of send_ok_packet
  write_register buf pkt_len t =
      parsed (expect_integer pkt_len (skip 1 (start_of buf))) buf t λ (addr, c₁).
        parsed (expect_seperator b'=' c₁) buf t λ c₂.
          if ltb addr num_registers
          then decoded (dec_hex c₂.rest (remaining pkt_len c₂) 4) buf (patch_register t addr)
          else again buf (send_ok_packet t)

  -- Insert and Remove Breakpoint: `Z type,addr,kind` and `z type,addr,kind`. `gdb_sys_insert` and
  -- `gdb_sys_remove` (gdb.odin) do nothing and return 0.
  unfoldable pub breakpoint : List ℕ → ℕ → Target D → Next D
  unfolding send_ok_packet
  breakpoint buf pkt_len t =
      parsed (expect_breakpoint pkt_len (skip 1 (start_of buf))) buf t
        λ args. again buf (send_ok_packet t)

  -- `gdb_sys_continue` (gdb.odin), which `gdb_continue` calls.
  unfoldable pub sys_continue : Target D → Target D
  sys_continue t = record t { debug = false }

  -- Continue With Signal: `C [num]`.
  unfoldable pub continue_with_signal : List ℕ → ℕ → Target D → Next D
  unfolding send_ok_packet
  continue_with_signal buf pkt_len t =
      parsed (expect_integer pkt_len (skip 1 (start_of buf))) buf t
        λ (status, c). return status (send_ok_packet t)

  -- The case `default` of the dispatch.
  unfoldable pub named_command : List ℕ → ℕ → Target D → Next D
  unfolding send_ok_packet pkt_prefix
  named_command buf pkt_len t =
      if pkt_prefix buf pkt_len kill
      then return minus_one (send_ok_packet t)
      else if pkt_prefix buf pkt_len supported
      then again buf (send t supported_answer)
      else if pkt_prefix buf pkt_len start_no_ack_mode
      then again buf (send_ok_packet (record t { gdb = record t.gdb { noack = true } }))
      else again buf (send t [])

  module _ (bus : Bus D) (stack : ℕ → ℕ) where
    -- Read Memory: `m addr,length`.
    unfoldable pub read_memory : List ℕ → ℕ → Target D → Next D
    unfolding mem_read
    read_memory buf pkt_len t =
        parsed (expect_range pkt_len (skip 1 (start_of buf))) buf t λ (addr, len, c).
          let (out, t') = mem_read bus t pkt_buf_size addr len in answer out buf t'

    -- Write Memory: `M addr,length:XX..` and, with the other decoder, `X addr,length:XX..`.
    unfoldable pub write_memory : (List ℕ → ℕ → ℕ → Access Decoded) → List ℕ → ℕ → Target D → Next D
    unfolding mem_write send_ok_packet
    write_memory dec buf pkt_len t =
        parsed (expect_range pkt_len (skip 1 (start_of buf))) buf t λ (addr, len, c₁).
          parsed (expect_seperator b':' c₁) buf t λ c₂.
            parsed (mem_write bus stack dec t c₂.rest (remaining pkt_len c₂) addr len) buf t
              λ (written, t'). if written then again buf (send_ok_packet t') else error buf t'

    -- The dispatch on the first character.
    unfoldable pub handle : List ℕ → ℕ → Target D → Next D
    unfolding read_registers write_registers read_register write_register read_memory write_memory
        breakpoint send_ok_packet sys_continue continue_with_signal send_signal_packet named_command
        dec_hex dec_bin
    handle buf pkt_len t =
        let c = get_or buf 0 0 in
        if c == b'g'
        then read_registers buf t
        else if c == b'G'
        then write_registers buf pkt_len t
        else if c == b'p'
        then read_register buf pkt_len t
        else if c == b'P'
        then write_register buf pkt_len t
        else if c == b'm'
        then read_memory buf pkt_len t
        else if c == b'M'
        then write_memory dec_hex buf pkt_len t
        else if c == b'X'
        then write_memory dec_bin buf pkt_len t
        else if c == b'Z'
        then breakpoint buf pkt_len t
        else if c == b'z'
        then breakpoint buf pkt_len t
        else if c == b'D'
        then return minus_one (send_ok_packet t)
        else if c == b'c'
        then return 0 (sys_continue t)
        else if c == b'C'
        then continue_with_signal buf pkt_len t
        else if c == b's'
        then return 0 t
        else if c == b'?'
        then (let (buf', t') = send_signal_packet buf t t.gdb.signum in again buf' t')
        else named_command buf pkt_len t

-- How a call of `gdb_main` ends: the value that it returns, as a 32-bit pattern, a fault, or, in
-- the model alone, no more fuel.
pub data Outcome (D : Type 0) : Type 0 where
  returned : ℕ → Target D → Outcome D
  crashed : Outcome D
  out_of_fuel : Outcome D

module _ {D : Type 0} (bus : Bus D) (stack : ℕ → ℕ) where
  -- What the loop does with the outcome of a command, `loop` being the next turn.
  abbrev pub after : (List ℕ → Target D → Outcome D) → Next D → Outcome D
  after loop (again buf t) = loop buf t
  after loop (error buf t) = let (buf', t') = send_error_packet buf t 0 in loop buf' t'
  after loop (return code t) = returned code t
  after loop crash = crashed

  -- One turn of the loop, with what was received: nothing more (`GDB_EOF`), an empty packet, which
  -- is skipped, or a command, which is now at the start of the packet buffer.
  abbrev pub turn :
      (List ℕ → Target D → Outcome D)
      → List ℕ
      → Target D
      → Option (Option (List ℕ) × GdbState)
      → Outcome D
  turn loop buf t none = out_of_fuel
  turn loop buf t (some (none, g)) = returned 0 (record t { gdb = g })
  turn loop buf t (some (some [], g)) = loop buf (record t { gdb = g })
  turn loop buf t (some (some (c ∷ cs), g)) =
      after loop (handle bus stack (overlay (c ∷ cs) buf) (length (c ∷ cs)) (record t { gdb = g }))

  -- The loop over packets. Receiving gets as much fuel as it can need.
  unfoldable pub main_loop : ℕ → List ℕ → Target D → Outcome D
  unfolding recv_packet handle send_error_packet
  main_loop zero buf t = out_of_fuel
  main_loop (suc fuel) buf t =
      turn (main_loop fuel) buf t (recv_packet (suc (length t.gdb.inbox)) pkt_buf_size t.gdb)

  -- `gdb_main`, called with `pkt_buf` holding `buf`.
  unfoldable pub gdb_main : ℕ → List ℕ → Target D → Outcome D
  unfolding main_loop send_signal_packet
  gdb_main fuel buf t =
      let (buf', t') = send_signal_packet buf t t.gdb.signum in main_loop fuel buf' t'
