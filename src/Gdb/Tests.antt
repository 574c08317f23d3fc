-- ===== src/Gdb/Tests.antt =====
-- The debugger server at concrete inputs.
use libretro_virtualxt.Base.{
  ℕ, ◌≡◌, ◌≢◌, refl, true, false, none, some, List, [], ◌∷◌, ◌++◌, All, length, arith, set, IsByte,
  ◌+◌, if◌then◌else◌, ◌==◌,
}
use libretro_virtualxt.Bus.{Bus, IsMemory}
use libretro_virtualxt.Gdb.Digits.{digit_value, ok, get_digit, get_val}
use libretro_virtualxt.Gdb.Codec.{
  dec_hex, enc_hex, dec_bin, dec_bin_loop, enc_bin, hex_digits, checksum, dec_hex_loop,
  enc_bin_loop, is_special,
}
use libretro_virtualxt.Gdb.Codec.Bin.{dec_bin-enc_bin}
use libretro_virtualxt.Gdb.Link.{GdbState, getc, putchar}
use libretro_virtualxt.Gdb.Packet.{
  write, trailer, wait_start, recv_packet, send_packet, recv_ack, frame,
}
use libretro_virtualxt.Gdb.Packet.Frame.{recv_packet-frame, answered, IsOther}
use libretro_virtualxt.Gdb.Packet.Send.{send_packet-frame}
use libretro_virtualxt.Gdb.Command
use libretro_virtualxt.Gdb.Command.{
  Target, mem_write, mem_read, word_bytes, bytes_of, send_ok_packet,
}
use libretro_virtualxt.Gdb.Command.Registers.{IsWord}
use libretro_virtualxt.Gdb.Command.Memory.{mem_write-mem_read, mem_write-peeks, peeks}
use libretro_virtualxt.Gdb.Main.{
  returned, main_loop, again, handle, gdb_main, out_of_fuel, with_registers,
}
use libretro_virtualxt.Gdb.Main.Registers.{handle-write_register, handle-write_registers}
use libretro_virtualxt.Gdb.Main.Ends.{gdb_main-ends}
use libretro_virtualxt.Gdb.Session.{Cpu, load_registers, stored_flags}
use libretro_virtualxt.Gdb.Session.Laws.{IsWide}
use libretro_virtualxt.Gdb.Timer.{Machine, done, enter, timer}
use libretro_virtualxt.Gdb.Timer.Session.{timer-resumes}
use libretro_virtualxt.Machine.{Manager, bus_of}
use libretro_virtualxt.Machine.MainMemory.{Devices, default_peripheral}
use libretro_virtualxt.Machine.MainMemory.Laws.{IsPlain, main_memory-IsMemory}

-- A machine that has nothing but its main memory, all zero.
abbrev manager : Manager (Devices Unit)
manager = record { peripherals = default_peripheral ∷ []; memory_map = λ a. 0; io_map = λ a. 0 }

abbrev bus : Bus (Devices Unit)
bus = bus_of manager

abbrev stack : ℕ → ℕ
stack i = 0xcc

-- A client that sends the given bytes.
abbrev server : List ℕ → GdbState
server bytes = record {
  server = some 3;
  client = some 4;
  port = 1234;
  current_cs = 0;
  current_ip = 0;
  signum = 5;
  noack = true;
  registers = 1 ∷ 2 ∷ 3 ∷ 4 ∷ 5 ∷ 6 ∷ 7 ∷ 8 ∷ 9 ∷ 10 ∷ 11 ∷ 12 ∷ 13 ∷ 14 ∷ 15 ∷ 16 ∷ [];
  inbox = bytes;
  room = 1000;
  sent = [];
}

abbrev target : List ℕ → Target (Devices Unit)
target bytes = record {
  gdb = server bytes;
  mem = record { memory = λ a. 0; others = tt };
  debug = true;
}

-- `$g#67`.
abbrev ask : List ℕ
ask = b'$' ∷ b'g' ∷ b'#' ∷ b'6' ∷ b'7' ∷ []

gdb_main-ends_example : gdb_main bus stack 6 [] (target ask) ≢ out_of_fuel
gdb_main-ends_example = gdb_main-ends bus stack 6 [] (target ask) (omega arith)

abbrev two_bytes : List ℕ
two_bytes = 0x12 ∷ 0xff ∷ []

two_bytes-IsByte : All IsByte two_bytes
two_bytes-IsByte = (omega arith, (omega arith, tt))

main_memory-IsMemory_here : IsMemory bus (IsPlain manager)
main_memory-IsMemory_here = main_memory-IsMemory manager refl

mem_write-mem_read_example :
    (t' : Target (Devices Unit)) × (mem_write bus stack dec_hex
        (target [])
        (hex_digits two_bytes ++ [])
        4
        0x1000
        2
      ≡ Command.ok (true, t'))
    × (mem_read bus t' 256 0x1000 2 ≡ (some (hex_digits two_bytes), t'))
mem_write-mem_read_example =
    mem_write-mem_read bus (IsPlain manager) main_memory-IsMemory_here stack (target []) two_bytes
      [] 0x1000 (omega arith) (omega arith, λ i l u. (omega arith, refl)) two_bytes-IsByte

-- One byte where two were asked for: the other is what the stack held.
one_char : dec_bin (0x41 ∷ []) 1 2 ≡ ok (record { done = true; bytes = 0x41 ∷ [] })
unfolding dec_bin dec_bin_loop
one_char = refl

handle-write_register_example :
    handle bus stack (b'P' ∷ b'8' ∷ b'=' ∷ (hex_digits (word_bytes 0x1234) ++ [])) 11 (target [])
    ≡ again
        (b'P' ∷ b'8' ∷ b'=' ∷ (hex_digits (word_bytes 0x1234) ++ []))
        (send_ok_packet (with_registers (target []) (set (target []).gdb.registers 8 0x1234)))
unfolding get_digit
handle-write_register_example =
    handle-write_register bus stack (target []) 8 [] 0x1234 [] (omega arith, tt) (omega arith)
      (omega arith) (omega arith)

abbrev new_registers : List ℕ
new_registers = 9 ∷ 9 ∷ 9 ∷ 9 ∷ 9 ∷ 9 ∷ 9 ∷ 9 ∷ 9 ∷ 9 ∷ 9 ∷ 9 ∷ 9 ∷ 9 ∷ 9 ∷ 9 ∷ []

new_registers-IsWord : All IsWord new_registers
new_registers-IsWord = (
  omega arith,
  (
    omega arith,
    (
      omega arith,
      (
        omega arith,
        (
          omega arith,
          (
            omega arith,
            (
              omega arith,
              (
                omega arith,
                (
                  omega arith,
                  (
                    omega arith,
                    (
                      omega arith,
                      (omega arith, (omega arith, (omega arith, (omega arith, (omega arith, tt))))),
                    ),
                  ),
                ),
              ),
            ),
          ),
        ),
      ),
    ),
  ),
)

handle-write_registers_example :
    handle bus stack (b'G' ∷ (hex_digits (bytes_of new_registers) ++ [])) 129 (target [])
    ≡ again
        (b'G' ∷ (hex_digits (bytes_of new_registers) ++ []))
        (send_ok_packet (with_registers (target []) new_registers))
handle-write_registers_example =
    handle-write_registers bus stack (target []) new_registers [] refl new_registers-IsWord refl

x-IsOther : All (IsOther b'$') (b'x' ∷ [])
x-IsOther = ((λ e. absurd (omega arith), λ e. absurd (omega arith)), tt)

g-IsOther : All (IsOther b'#') (b'g' ∷ [])
g-IsOther = ((λ e. absurd (omega arith), λ e. absurd (omega arith)), tt)

frame_size : 1000 ≡ length (frame (b'O' ∷ b'K' ∷ [])) + 994
unfolding frame hex_digits
frame_size = refl

upper_case : dec_hex (b'5' ∷ b'A' ∷ []) 2 1 ≡ ok (record { done = true; bytes = 0x5a ∷ [] })
unfolding dec_hex dec_hex_loop get_val
upper_case = refl

escaped : enc_bin 3 (b'#' ∷ b'a' ∷ []) ≡ some (b'}' ∷ 0x03 ∷ b'a' ∷ [])
unfolding enc_bin enc_bin_loop is_special
escaped = refl

comma : get_val b',' 16 ≡ none
unfolding get_val digit_value
comma = refl

-- A stray character, then `$g#67` and the start of another packet.
recv_packet-frame_example :
    recv_packet 9 256 (server (b'x' ∷ b'$' ∷ b'g' ∷ b'#' ∷ b'6' ∷ b'7' ∷ b'$' ∷ []))
    ≡ some (
        if checksum (b'g' ∷ []) == 0x67
        then (
          some (b'g' ∷ []),
          answered
              (server (b'x' ∷ b'$' ∷ b'g' ∷ b'#' ∷ b'6' ∷ b'7' ∷ b'$' ∷ []))
              4
              999
              (b'x' ∷ [])
              (b'g' ∷ [])
              (b'$' ∷ [])
              256
              9
              b'+',
        )
        else (
          none,
          answered
              (server (b'x' ∷ b'$' ∷ b'g' ∷ b'#' ∷ b'6' ∷ b'7' ∷ b'$' ∷ []))
              4
              999
              (b'x' ∷ [])
              (b'g' ∷ [])
              (b'$' ∷ [])
              256
              9
              b'-',
        ))
unfolding hex_digits get_digit
recv_packet-frame_example =
    recv_packet-frame (server (b'x' ∷ b'$' ∷ b'g' ∷ b'#' ∷ b'6' ∷ b'7' ∷ b'$' ∷ [])) 4 999
      (b'x' ∷ []) (b'g' ∷ []) (b'$' ∷ []) 256 9 0x67 (omega arith) (refl, refl, refl) x-IsOther
      g-IsOther (omega arith) (omega arith) (omega arith)

send_packet-frame_example :
    send_packet (server []) (b'O' ∷ b'K' ∷ [])
    ≡ recv_ack (record (server []) { room = 994; sent = frame (b'O' ∷ b'K' ∷ []) })
send_packet-frame_example =
    send_packet-frame (b'O' ∷ b'K' ∷ []) 4 994 (server []) refl frame_size
      (omega arith, (omega arith, tt))

abbrev letter : List ℕ
letter = 0x5a ∷ []

dec_bin-enc_bin_example :
    dec_bin ((b'}' ∷ 0x03 ∷ b'a' ∷ []) ++ []) 3 8
    ≡ ok (record { done = true; bytes = b'#' ∷ b'a' ∷ [] })
dec_bin-enc_bin_example =
    dec_bin-enc_bin (b'#' ∷ b'a' ∷ []) [] (b'}' ∷ 0x03 ∷ b'a' ∷ []) 3 8
      (omega arith, (omega arith, tt)) (omega arith) escaped

abbrev packet : List ℕ
packet = b'v' ∷ b'K' ∷ b'i' ∷ []

abbrev name : List ℕ
name = b'v' ∷ b'K' ∷ []

-- A processor stopped at f000:fff0.
abbrev cpu : Cpu
cpu = record {
  ax = 1;
  bx = 2;
  cx = 3;
  dx = 4;
  sp = 0xfffe;
  bp = 5;
  si = 6;
  di = 7;
  cs = 0xf000;
  ss = 0x30;
  ds = 8;
  es = 9;
  ip = 0xfff0;
  flags = 0xf246;
}

cpu-IsWide : IsWide cpu
cpu-IsWide = (
  omega arith,
  omega arith,
  omega arith,
  omega arith,
  omega arith,
  omega arith,
  omega arith,
  omega arith,
  omega arith,
  omega arith,
  omega arith,
  omega arith,
  omega arith,
)

-- The processor has run on since the last trap, and the client is gone when the session begins.
abbrev trapped : Machine (Devices Unit)
trapped = record { target = target []; cpu = cpu }

abbrev gone : Target (Devices Unit)
gone = record (enter trapped) {
  gdb = record (enter trapped).gdb {
    client = none;
    room = 993;
    sent = b'$' ∷ b'S' ∷ b'0' ∷ b'5' ∷ b'#' ∷ b'b' ∷ b'8' ∷ [];
  };
}

ran : gdb_main bus stack 1 [] (enter trapped) ≡ returned 0 gone
unfolding gdb_main main_loop recv_packet wait_start getc enc_hex send_packet putchar load_registers
    write trailer recv_ack get_digit checksum
ran = refl

timer-resumes_example :
    timer bus stack 1 [] false (record { fd = none; bytes = []; space = 0 }) false trapped
    ≡ done (record {
      target = record gone { gdb = record gone.gdb { current_cs = cpu.cs; current_ip = cpu.ip } };
      cpu = record cpu { flags = stored_flags 0xf246 };
    })
timer-resumes_example =
    timer-resumes bus stack 0 [] false (record { fd = none; bytes = []; space = 0 }) false trapped 4
      0 gone refl refl refl cpu-IsWide ran (omega arith) (omega arith) refl

mem_write-peeks_example :
    (t' : Target (Devices Unit)) × (mem_write bus stack dec_bin (target []) (0x41 ∷ []) 1 0x1000 2
      ≡ Command.ok (true, t'))
    × (peeks bus (IsPlain manager) main_memory-IsMemory_here t'.mem 0x1000 2 ≡ 0x41 ∷ 0xcc ∷ [])
mem_write-peeks_example =
    mem_write-peeks bus (IsPlain manager) main_memory-IsMemory_here stack dec_bin (target [])
      (0x41 ∷ []) 1 0x1000 2 1 (0x41 ∷ []) one_char refl (omega arith)
      (omega arith, λ i l u. (omega arith, refl)) (omega arith, (omega arith, tt))
