-- ===== src/Gdb/X86/Gates.antt =====
-- Where the gates of the x86 system of src/modules/gdb/gdbstub/gdbstub.h lead.
use libretro_virtualxt.Base.{
  ℕ, zero, suc, ◌+◌, ◌*◌, ◌/◌, ◌^◌, ◌<◌, ◌≤◌, ◌≡◌, refl, ap, ◌∙◌, arith, Bool, true, false,
  Bool-cases, inl, inr, List, ◌==◌, ==_iff, ◌&&◌, ◌||◌, leb, ltb, if◌then◌else◌, length, length-set,
  get_or, set, get_or-set_self, get_or-set_ne, u16,
}
use libretro_virtualxt.Base.Bits.{bit_and_mask}
use libretro_virtualxt.Gdb.X86.{
  Gate, Machine, idt, gate_to, hook_idt, sys_init, init_gates_loop, init_idt, num_idt_entries,
}

-- The address that a gate leads to.
abbrev pub target : Gate → ℕ
target g = g.offset_low + g.offset_high * 2 ^ 16

abbrev pub no_gate : Gate
no_gate = record { offset_low = 0; segment = 0; flags = 0; offset_high = 0 }

-- An interrupt gate of the code segment, that leads to the handler.
abbrev pub LeadsTo : ℕ → ℕ → Gate → Type 0
LeadsTo segment address g = (target g ≡ address) × (g.segment ≡ u16 segment) × (g.flags ≡ 0x8E00)

gate_to-LeadsTo :
    (segment address : ℕ) → address < 2 ^ 32 → LeadsTo segment address (gate_to segment address)
gate_to-LeadsTo segment address h =
    (omega (arith, bit_and_mask 16 address, bit_and_mask 16 (address / 2 ^ 16)), refl, refl)

get_or-set {ℓ} :
    {A : Type ℓ} (xs : List A) (i j : ℕ) (v d : A)
    → i < length xs
    → get_or (set xs i v) j d ≡ (if j == i then v else get_or xs j d)
get_or-set xs i j v d h = elim (Bool-cases (j == i)) [
  | inl same ↦ rw (same, (==_iff j i).0 same) (get_or-set_self xs i v d h)
  | inr other ↦ rw other (get_or-set_ne xs i j v d (λ e. ground (arith, e)))
]

hook_parts :
    (own : Bool) (gates table : List Gate) (segment vector address : ℕ)
    → (let m : Machine = record {
      code_segment = segment;
      gates = gates;
      table = table;
      own = own;
    } in
        (idt (hook_idt vector address m) ≡ set (idt m) vector (gate_to segment address))
        × ((hook_idt vector address m).code_segment ≡ segment))
unfolding hook_idt
hook_parts true gates table segment vector address = (refl, refl)
hook_parts false gates table segment vector address = (refl, refl)

-- In a table of more than three gates, `gdb_sys_init` sets the gates of the vectors 1 and 3, in
-- the table that the processor uses, and no other; such a gate for a handler below 2 ^ 32 leads
-- to the handler in the current code segment, with the flags of an interrupt gate.
pub sys_init-gates :
    (handlers : ℕ → ℕ) (m : Machine) (v : ℕ)
    → handlers v < 2 ^ 32
    → 3 < length (idt m)
    → (get_or (idt (sys_init handlers m)) v no_gate ≡ (
        if v == 1 || v == 3 then gate_to m.code_segment (handlers v) else get_or (idt m) v no_gate))
      × LeadsTo m.code_segment (handlers v) (gate_to m.code_segment (handlers v))
unfolding sys_init
sys_init-gates handlers m v small long =
    let first = hook_parts m.own m.gates m.table m.code_segment 1 (handlers 1) in
    let m₁ = hook_idt 1 (handlers 1) m in
    let second = hook_parts m₁.own m₁.gates m₁.table m₁.code_segment 3 (handlers 3) in
    let g₁ = gate_to m.code_segment (handlers 1) in
    let g₃ = gate_to m.code_segment (handlers 3) in
    let all : idt (sys_init handlers m) ≡ set (set (idt m) 1 g₁) 3 g₃ =
      second.0
      ∙ ap (λ xs. set xs 3 (gate_to m₁.code_segment (handlers 3))) first.0
      ∙ ap (λ c. set (set (idt m) 1 g₁) 3 (gate_to c (handlers 3))) first.1 in
    let long' : 3 < length (set (idt m) 1 g₁) = omega (arith, length-set (idt m) 1 g₁) in
    (
      rw
          (
            all,
            get_or-set (set (idt m) 1 g₁) 3 v g₃ no_gate long',
            get_or-set (idt m) 1 v g₁ no_gate (omega arith),
          )
          (elim (Bool-cases (v == 3)) [
            | inl three ↦ rw (three, (==_iff v 3).0 three) refl
            | inr not_three ↦ rw not_three (elim (Bool-cases (v == 1)) [
              | inl one ↦ rw (one, (==_iff v 1).0 one) refl
              | inr not_one ↦ rw not_one refl
            ])
          ]),
      gate_to-LeadsTo m.code_segment (handlers v) small,
    )

-- The loop sets the gates from `i` on.
init_gates_loop-gate :
    (left i : ℕ) (handlers : ℕ → ℕ) (segment : ℕ) (gates : List Gate) (v : ℕ)
    → i + left ≤ length gates
    → get_or (init_gates_loop left i handlers segment gates) v no_gate ≡ (
        if leb i v && ltb v (i + left)
        then gate_to segment (handlers v)
        else get_or gates v no_gate)
unfolding init_gates_loop
init_gates_loop-gate zero i handlers segment gates v h = ground arith
init_gates_loop-gate (suc left) i handlers segment gates v h =
    init_gates_loop-gate left (i + 1) handlers segment (set gates i (gate_to segment (handlers i)))
      v (omega (arith, length-set gates i (gate_to segment (handlers i))))
    ∙ rw (get_or-set gates i v (gate_to segment (handlers i)) no_gate (omega arith)) (ground arith)

init_idt-gates :
    (handlers : ℕ → ℕ) (m : Machine) (v : ℕ)
    → ((i : ℕ) → handlers i < 2 ^ 32)
    → length m.gates ≡ num_idt_entries
    → v < num_idt_entries
    → LeadsTo m.code_segment (handlers v) (get_or (idt (init_idt handlers m)) v no_gate)
unfolding init_idt
init_idt-gates handlers m v small len h =
    let inside : (leb 0 v && ltb v num_idt_entries) ≡ true = ground arith in
    rw
      (
        init_gates_loop-gate num_idt_entries 0 handlers m.code_segment m.gates v (omega arith),
        inside,
      )
      (gate_to-LeadsTo m.code_segment (handlers v) (small v))
