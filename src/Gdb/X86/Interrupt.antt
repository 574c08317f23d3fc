-- ===== src/Gdb/X86/Interrupt.antt =====
-- The debug interrupt of the x86 system of src/modules/gdb/gdbstub/gdbstub.h around a session of
-- the stub.
use libretro_virtualxt.Base.Bits.{
  bit_at, bit_at-bit_and, bit_at-bit_or, every_below, every_below-holds,
}
use libretro_virtualxt.Base.{
  ℕ, ◌-◌, ◌^◌, ◌<◌, ◌≡◌, ◌≢◌, refl, arith, true, ==_iff, ==_ne, ◌==◌, if◌then◌else◌, bit_and,
  bit_or,
}
use libretro_virtualxt.Gdb.X86.{
  InterruptState, StubState, load_state, store_state, interrupt, sys_continue, sys_step,
}

-- The session leaves the registers as they were.
abbrev LeavesRegisters : (StubState → StubState) → InterruptState → StubState → Type 0
LeavesRegisters main i g = (main (load_state i g)).registers ≡ (load_state i g).registers

-- Two words differ at most in the trap flag, bit 8, which the second has as `v`.
abbrev pub SetsTrap : ℕ → ℕ → ℕ → Type 0
SetsTrap v before after =
    (bit_at after 8 ≡ v) × ((k : ℕ) → k < 32 → k ≢ 8 → bit_at after k ≡ bit_at before k)

mask_bits :
    (m v k : ℕ)
    → every_below (λ j. bit_at m j == (if j == 8 then v else 1 - v)) 32 ≡ true
    → k < 32
    → bit_at m k ≡ (if k == 8 then v else 1 - v)
mask_bits m v k all h =
    (==_iff (bit_at m k) (if k == 8 then v else 1 - v)).0
      (every_below-holds (λ j. bit_at m j == (if j == 8 then v else 1 - v)) 32 k h all)

continue_flags : (n : ℕ) → SetsTrap 0 n (bit_and n (2 ^ 32 - 1 - 2 ^ 8))
unfolding every_below
continue_flags n = (
  omega (
    arith,
    bit_at-bit_and 8 n (2 ^ 32 - 1 - 2 ^ 8),
    mask_bits (2 ^ 32 - 1 - 2 ^ 8) 0 8 refl (omega arith),
  ),
  λ k h ne.
      let kept : bit_at (2 ^ 32 - 1 - 2 ^ 8) k ≡ 1 =
        rw (mask_bits (2 ^ 32 - 1 - 2 ^ 8) 0 k refl h, ==_ne k 8 ne) refl in
      omega (arith, bit_at-bit_and k n (2 ^ 32 - 1 - 2 ^ 8), kept),
)

step_flags : (n : ℕ) → SetsTrap 1 n (bit_or n (2 ^ 8))
unfolding every_below
step_flags n = (
  omega (arith, bit_at-bit_or 8 n (2 ^ 8), mask_bits (2 ^ 8) 1 8 refl (omega arith)),
  λ k h ne.
      let kept : bit_at (2 ^ 8) k ≡ 0 = rw (mask_bits (2 ^ 8) 1 k refl h, ==_ne k 8 ne) refl in
      omega (arith, bit_at-bit_or k n (2 ^ 8), kept),
)

-- If a session of the stub leaves the registers, the debug interrupt returns to exactly the state
-- that it interrupted; if the session ends with a continue or a step, only the trap flag differs,
-- which is then clear or set.
pub interrupt-resumes :
    (main : StubState → StubState) (i : InterruptState) (g : StubState)
    → LeavesRegisters main i g
    → ((interrupt main i g).0 ≡ i)
      × ((f : ℕ) × SetsTrap 0 i.eflags f
          × ((interrupt (λ s. sys_continue (main s)) i g).0 ≡ record i { eflags = f }))
      × ((f : ℕ) × SetsTrap 1 i.eflags f
          × ((interrupt (λ s. sys_step (main s)) i g).0 ≡ record i { eflags = f }))
unfolding interrupt sys_continue sys_step load_state store_state
interrupt-resumes main i g h = (
  rw h refl,
  (bit_and i.eflags (2 ^ 32 - 1 - 2 ^ 8), continue_flags i.eflags, rw h refl),
  (bit_or i.eflags (2 ^ 8), step_flags i.eflags, rw h refl),
)
