-- ===== src/Gdb/X86/Tests.antt =====
-- The bare-metal x86 system of the stub at concrete inputs.
use libretro_virtualxt.Base.{
  ℕ, zero, suc, ◌+◌, ◌≡◌, ◌<◌, refl, arith, false, some, ◌==◌, if◌then◌else◌, leb, get_or,
  replicate, bit_and,
}
use libretro_virtualxt.Gdb.X86.{
  InterruptState, StubState, Machine, idt, gate_to, sys_init, interrupt, load_state, sys_continue,
  sys_step,
}
use libretro_virtualxt.Gdb.X86.Gates.{sys_init-gates, no_gate, LeadsTo}
use libretro_virtualxt.Gdb.X86.Interrupt.{interrupt-resumes, SetsTrap}
use libretro_virtualxt.Gdb.X86.Serial.{
  Ports, serial-ready, sys_getc, serial_putchar, ReadyAt, polled, status,
}

abbrev machine : Machine
machine = record {
  code_segment = 8;
  gates = replicate 32 no_gate;
  table = replicate 4 no_gate;
  own = false;
}

sys_init-gates_example :
    (get_or (idt (sys_init (λ i. 0x10000 + i) machine)) 3 no_gate ≡ gate_to 8 0x10003)
    × LeadsTo 8 0x10003 (gate_to 8 0x10003)
sys_init-gates_example = sys_init-gates (λ i. 0x10000 + i) machine 3 (omega arith) (omega arith)

abbrev stopped : InterruptState
stopped = record {
  ss = 16;
  gs = 1;
  fs = 2;
  es = 3;
  ds = 16;
  edi = 4;
  esi = 5;
  ebp = 6;
  esp = 7;
  ebx = 8;
  edx = 9;
  ecx = 10;
  eax = 11;
  vector = 3;
  error_code = 0;
  eip = 0x1000;
  cs = 8;
  eflags = 0x302;
}

abbrev stub : StubState
stub = record { signum = 0; noack = 0; registers = replicate 16 0 }

-- The breakpoint is signal 5.
breakpoint_signal : (interrupt (λ s. s) stopped stub).1.signum ≡ 5
unfolding interrupt load_state
breakpoint_signal = refl

leaves : (load_state stopped stub).registers ≡ (load_state stopped stub).registers
leaves = refl

interrupt-resumes_example :
    ((interrupt (λ s. s) stopped stub).0 ≡ stopped)
    × ((f : ℕ) × SetsTrap 0 0x302 f
        × ((interrupt (λ s. sys_continue s) stopped stub).0 ≡ record stopped { eflags = f }))
    × ((f : ℕ) × SetsTrap 1 0x302 f
        × ((interrupt (λ s. sys_step s) stopped stub).0 ≡ record stopped { eflags = f }))
interrupt-resumes_example = interrupt-resumes (λ s. s) stopped stub leaves

-- A port that is ready at the third read of its status.
abbrev slow_port : Ports ℕ
slow_port = record {
  in_8 = λ s port. if port == 0x3fd then ((if leb 2 s then 0x21 else 0), s + 1) else (0x141, s);
  out_8 = λ s port v. s + v;
}

not_yet_read : (k : ℕ) → k < 2 → bit_and (status slow_port (polled slow_port k 0)) 1 ≡ 0
not_yet_read zero h = refl
not_yet_read (suc zero) h = refl
not_yet_read (suc (suc k)) h = absurd (omega arith)

not_yet_written : (k : ℕ) → k < 2 → bit_and (status slow_port (polled slow_port k 0)) 32 ≡ 0
not_yet_written zero h = refl
not_yet_written (suc zero) h = refl
not_yet_written (suc (suc k)) h = absurd (omega arith)

ready_to_read : ReadyAt slow_port 1 2 0
ready_to_read = (not_yet_read, λ e. absurd (omega arith))

ready_to_write : ReadyAt slow_port 32 2 0
ready_to_write = (not_yet_written, λ e. absurd (omega arith))

serial-ready_example :
    (sys_getc slow_port 5 0 ≡ some (0x41, 3))
    × (serial_putchar slow_port 5 0x24 0 ≡ some (0x24, 39))
serial-ready_example =
    serial-ready slow_port 2 2 5 0x24 0 (omega arith) (omega arith) ready_to_read ready_to_write
