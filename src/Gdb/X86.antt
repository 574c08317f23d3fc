-- ===== src/Gdb/X86.antt =====
-- The bare-metal x86 system of src/modules/gdb/gdbstub/gdbstub.h: the interrupt gates, the handler
-- that calls the stub, and the functions that the stub calls. What the processor itself does with
-- `push cs`, `lidt` and `sidt` is its state here; memory is bytes.
pub mod Serial
pub mod Gates
pub mod Interrupt
mod Tests
use libretro_virtualxt.Base.{
  ℕ, zero, suc, ◌+◌, ◌-◌, ◌*◌, ◌/◌, ◌%◌, ◌^◌, Bool, true, false, List, [], ◌∷◌, ◌==◌, if◌then◌else◌,
  get_or, set, u8, u16, u32, bit_and, bit_or, ◌>>>◌,
}

-- `struct gdb_interrupt_state`.
pub record InterruptState : Type 0 where
  pub ss : ℕ
  pub gs : ℕ
  pub fs : ℕ
  pub es : ℕ
  pub ds : ℕ
  pub edi : ℕ
  pub esi : ℕ
  pub ebp : ℕ
  pub esp : ℕ
  pub ebx : ℕ
  pub edx : ℕ
  pub ecx : ℕ
  pub eax : ℕ
  pub vector : ℕ
  pub error_code : ℕ
  pub eip : ℕ
  pub cs : ℕ
  pub eflags : ℕ

-- `struct gdb_idt_gate`.
pub record Gate : Type 0 where
  pub offset_low : ℕ
  pub segment : ℕ
  pub flags : ℕ
  pub offset_high : ℕ

-- `struct gdb_state` of this system.
pub record StubState : Type 0 where
  pub signum : ℕ
  pub noack : ℕ
  pub registers : List ℕ

abbrev pub num_idt_entries : ℕ
num_idt_entries = 32

-- `enum GDB_REGISTER`.
abbrev reg_ps : ℕ
reg_ps = 9

-- The code segment of the processor, `gdb_idt_gates`, the table that was there before, and whether
-- the processor uses `gdb_idt_gates`.
pub record Machine : Type 0 where
  pub code_segment : ℕ
  pub gates : List Gate
  pub table : List Gate
  pub own : Bool

-- The table that the processor uses, as `sidt` tells it.
abbrev pub idt : Machine → List Gate
idt m = if m.own then m.gates else m.table

-- A gate for a handler at an address.
abbrev pub gate_to : ℕ → ℕ → Gate
gate_to segment address = record {
  flags = 0x8E00;
  segment = u16 segment;
  offset_low = bit_and address 0xffff;
  offset_high = bit_and (address >>> 16) 0xffff;
}

-- The loop of `gdb_x86_init_gates`, with `left` gates from `i` on; `handlers` is
-- `gdb_x86_int_handlers`.
unfoldable pub init_gates_loop : ℕ → ℕ → (ℕ → ℕ) → ℕ → List Gate → List Gate
init_gates_loop zero i handlers segment gates = gates
init_gates_loop (suc left) i handlers segment gates =
    init_gates_loop left (i + 1) handlers segment (set gates i (gate_to segment (handlers i)))

-- `gdb_x86_init_gates`.
unfoldable init_gates : (ℕ → ℕ) → Machine → Machine
unfolding init_gates_loop
init_gates handlers m = record m {
  gates = init_gates_loop num_idt_entries 0 handlers m.code_segment m.gates;
}

-- `gdb_x86_init_idt`.
unfoldable pub init_idt : (ℕ → ℕ) → Machine → Machine
unfolding init_gates
init_idt handlers m = record (init_gates handlers m) { own = true }

-- `gdb_x86_hook_idt`: the gate of the vector in the table that the processor uses. It does not look
-- at the table's length; past that, nothing changes here.
unfoldable pub hook_idt : ℕ → ℕ → Machine → Machine
hook_idt vector address m =
    if m.own
    then record m { gates = set m.gates vector (gate_to m.code_segment address) }
    else record m { table = set m.table vector (gate_to m.code_segment address) }

-- `gdb_sys_init`, up to the `int3` that starts the stub.
unfoldable pub sys_init : (ℕ → ℕ) → Machine → Machine
unfolding hook_idt
sys_init handlers m = hook_idt 3 (handlers 3) (hook_idt 1 (handlers 1) m)

-- The first part of `gdb_x86_interrupt`: the signal of the vector, and the registers.
unfoldable pub load_state : InterruptState → StubState → StubState
load_state i g = record g {
  signum = if i.vector == 1 then 5 else if i.vector == 3 then 5 else 7;
  registers =
      i.eax ∷ i.ecx ∷ i.edx ∷ i.ebx ∷ i.esp ∷ i.ebp ∷ i.esi ∷ i.edi ∷ i.eip ∷ i.eflags ∷ i.cs ∷ i.ss
      ∷ i.ds ∷ i.es ∷ i.fs ∷ i.gs ∷ [];
}

-- The last part: the registers go back.
unfoldable pub store_state : StubState → InterruptState → InterruptState
store_state g i = record i {
  eax = get_or g.registers 0 0;
  ecx = get_or g.registers 1 0;
  edx = get_or g.registers 2 0;
  ebx = get_or g.registers 3 0;
  esp = get_or g.registers 4 0;
  ebp = get_or g.registers 5 0;
  esi = get_or g.registers 6 0;
  edi = get_or g.registers 7 0;
  eip = get_or g.registers 8 0;
  cs = get_or g.registers 10 0;
  eflags = get_or g.registers 9 0;
  ss = get_or g.registers 11 0;
  ds = get_or g.registers 12 0;
  es = get_or g.registers 13 0;
  fs = get_or g.registers 14 0;
  gs = get_or g.registers 15 0;
}

-- `gdb_x86_int_handler` and `gdb_x86_interrupt`, around a run of the stub, `main`.
unfoldable pub interrupt :
    (StubState → StubState) → InterruptState → StubState → InterruptState × StubState
unfolding load_state store_state
interrupt main i g = let g' = main (load_state i g) in (store_state g' i, g')

-- `gdb_sys_continue` and `gdb_sys_step`: the trap flag, bit 8.
unfoldable pub sys_continue : StubState → StubState
sys_continue g = record g {
  registers = set g.registers reg_ps (bit_and (get_or g.registers reg_ps 0) (2 ^ 32 - 1 - 2 ^ 8));
}

unfoldable pub sys_step : StubState → StubState
sys_step g = record g {
  registers = set g.registers reg_ps (bit_or (get_or g.registers reg_ps 0) (2 ^ 8));
}

-- `gdb_sys_mem_readb` and `gdb_sys_mem_writeb`, which never fail.
unfoldable pub sys_mem_readb : (ℕ → ℕ) → ℕ → ℕ
sys_mem_readb mem addr = mem addr

unfoldable pub sys_mem_writeb : (ℕ → ℕ) → ℕ → ℕ → ℕ → ℕ
sys_mem_writeb mem addr val a = if a == addr then u8 val else mem a
