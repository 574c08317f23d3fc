-- ===== src/Processor/Shift/Left.antt =====
-- `SHL` of src/machine/processor/alu.odin against multiplication.
use mathlib.Core.Path.{ap₂}
use native.Mathlib.Nat.{pow-succ', mul_assoc}
use libretro_virtualxt.Base.{
  ℕ, zero, suc, ◌*◌, ◌^◌, ◌<◌, ◌≡◌, refl, sym, ap, ◌∙◌, false, not, ◌==◌, if◌then◌else◌, truthy,
  ◌>>>◌, bit_and, arith,
}
use libretro_virtualxt.Processor.Flags.{
  Flags, Size, byte, word, limit, sign_bit, wrap, set_psz_flags,
}
use libretro_virtualxt.Processor.Alu.Add.{wrap_small}
use libretro_virtualxt.Processor.Shift.{shl, shl_loop, with_carry, sign_place}

wrap_product : (size : Size) (x m : ℕ) → wrap size (wrap size x * m) ≡ wrap size (x * m)
wrap_product byte x zero = omega arith
wrap_product byte x (suc m) = ground (arith, wrap_product byte x m)
wrap_product word x zero = omega arith
wrap_product word x (suc m) = ground (arith, wrap_product word x m)

once : (size : Size) (r : ℕ) → r < limit size → wrap size (r * 1) ≡ r
once byte r h = omega arith
once word r h = omega arith

product : (x n : ℕ) → x * 2 ^ 1 * 2 ^ n ≡ x * 2 ^ suc n
product x n = mul_assoc x 2 (2 ^ n) ∙ ap (λ (t : ℕ). x * t) (sym (pow-succ' 2 n))

-- The signs go out one after the other: the last one is that of the operand times 2 ^ n.
shl_loop_lem :
    (size : Size) (n r : ℕ) (f : Flags)
    → r < limit size
    → shl_loop size (suc n) r f ≡ (
      wrap size (r * 2 ^ suc n),
      with_carry f (truthy (bit_and (wrap size (r * 2 ^ n)) (sign_bit size))),
    )
unfolding shl_loop
shl_loop_lem size zero r f h =
    ap (λ x. (wrap size (r * 2), with_carry f (truthy (bit_and x (sign_bit size)))))
      (sym (once size r h))
shl_loop_lem size (suc n) r f h =
    let g = with_carry f (truthy (bit_and r (sign_bit size))) in
    shl_loop_lem size n (wrap size (r * 2)) g (wrap_small size (r * 2))
    ∙ ap₂ (λ x y. (x, with_carry f (truthy (bit_and y (sign_bit size)))))
        (wrap_product size (r * 2) (2 ^ suc n) ∙ ap (wrap size) (product r (suc n)))
        (wrap_product size (r * 2) (2 ^ n) ∙ ap (wrap size) (product r n))

-- `SHL` of an operand of 8 or 16 bits by a count that is not 0 multiplies by that power of two,
-- wrapped, leaves the last bit that it shifts out in the carry flag, sets overflow if that
-- differs from the new sign, and sets zero, sign and parity from the result; the other flags
-- stay.
shl_lem :
    (size : Size) (v n : ℕ) (f : Flags)
    → v < limit size
    → (let res = wrap size (v * 2 ^ suc n) in
        let last = truthy (bit_and (wrap size (v * 2 ^ n)) (sign_bit size)) in
        shl size v (suc n) f ≡ (
          res,
          set_psz_flags size res (record f {
            carry = last;
            overflow = not ((res >>> sign_place size) == (if last then 1 else 0));
          }),
        ))
unfolding shl
shl_lem size v n f h =
    let some_count : (suc n == 0) ≡ false = ground arith in
    rw (some_count, shl_loop_lem size n v f h) refl
