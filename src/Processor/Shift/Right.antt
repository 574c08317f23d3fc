-- ===== src/Processor/Shift/Right.antt =====
-- `SHR` of src/machine/processor/alu.odin against division.
use mathlib.Core.Path.{ap₂}
use libretro_virtualxt.Base.{
  ℕ, zero, suc, ◌/◌, ◌^◌, ◌≡◌, refl, sym, ap, ◌∙◌, false, ◌&&◌, ◌==◌, truthy, ◌>>>◌, bit_and, arith,
}
use libretro_virtualxt.Base.Bits.{bit_at, bit_at-suc, shift-suc}
use libretro_virtualxt.Processor.Flags.{Flags, Size, sign_bit, set_psz_flags}
use libretro_virtualxt.Processor.Alu.Bits.{test_bit}
use libretro_virtualxt.Processor.Shift.{shr, shr_loop, with_carry}

shr_loop_lem :
    (n r : ℕ) (f : Flags) → shr_loop (suc n) r f ≡ (r / 2 ^ suc n, with_carry f (bit_at r n == 1))
unfolding shr_loop
shr_loop_lem zero r f = ap (λ c. (r / 2, with_carry f c)) (test_bit 0 r)
shr_loop_lem (suc n) r f =
    shr_loop_lem n (r >>> 1) (with_carry f (truthy (bit_and r 1)))
    ∙ ap₂ (λ x c. (x, with_carry f c)) (sym (shift-suc r (suc n)))
        (ap (λ t. t == 1) (sym (bit_at-suc r n)))

-- `SHR` by a count that is not 0 divides by that power of two, leaves the last bit that it shifts
-- out in the carry flag, sets overflow to the old sign exactly for a count of 1, and sets zero,
-- sign and parity from the result; the other flags stay.
shr_lem :
    (size : Size) (v n : ℕ) (f : Flags)
    → shr size v (suc n) f ≡ (
      v / 2 ^ suc n,
      set_psz_flags size (v / 2 ^ suc n) (record f {
        carry = bit_at v n == 1;
        overflow = (suc n == 1) && truthy (bit_and v (sign_bit size));
      }),
    )
unfolding shr
shr_lem size v n f =
    let some_count : (suc n == 0) ≡ false = ground arith in rw (some_count, shr_loop_lem n v f) refl
