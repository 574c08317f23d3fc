-- ===== src/Processor/Shift/Rotate.antt =====
-- The rotations of src/machine/processor/alu.odin are inverse to each other.
use libretro_virtualxt.Base.{
  ℕ, zero, suc, ◌+◌, ◌*◌, ◌/◌, ◌%◌, ◌^◌, ◌<◌, ◌≡◌, refl, ap, ◌∙◌, false, ◌==◌, truthy, ◌>>>◌, ◌<<<◌,
  bit_and, bit_or, arith,
}
use libretro_virtualxt.Base.Bits.{bit_and_bit, bit_or_fields, bit_or_comm}
use libretro_virtualxt.Processor.Flags.{Flags, Size, byte, word, sign_bit, limit, wrap}
use libretro_virtualxt.Processor.Shift.{rol, ror, rol_loop, ror_loop, sign_place, with_carry}

-- A step to the left, and to the right.
abbrev pub left : Size → ℕ → ℕ
left size r = wrap size (r * 2) + r / sign_bit size

abbrev right : Size → ℕ → ℕ
right size r = r / 2 + r % 2 * sign_bit size

left_step :
    (size : Size) (r : ℕ)
    → r < limit size
    → bit_or (wrap size (r <<< 1)) (bit_and r (sign_bit size) >>> sign_place size) ≡ left size r
left_step byte r h =
    let high : bit_and r 128 >>> 7 ≡ r / 128 = omega (arith, bit_and_bit 7 r) in
    let low : r <<< 1 % 256 ≡ r % 128 * 2 ^ 1 = omega arith in
    rw (high, low, bit_or_fields 1 (r % 128) (r / 128) (omega arith)) (omega arith)
left_step word r h =
    let high : bit_and r 32768 >>> 15 ≡ r / 32768 = omega (arith, bit_and_bit 15 r) in
    let low : r <<< 1 % 65536 ≡ r % 32768 * 2 ^ 1 = omega arith in
    rw (high, low, bit_or_fields 1 (r % 32768) (r / 32768) (omega arith)) (omega arith)

right_step :
    (size : Size) (r : ℕ)
    → r < limit size
    → bit_or (r >>> 1) (wrap size (bit_and r 1 <<< sign_place size)) ≡ right size r
right_step byte r h =
    let sign : bit_and r 1 <<< 7 % 256 ≡ r % 2 * 2 ^ 7 = omega (arith, bit_and_bit 0 r) in
    rw
      (sign, bit_or_comm (r >>> 1) (r % 2 * 2 ^ 7), bit_or_fields 7 (r % 2) (r >>> 1) (omega arith))
      (omega arith)
right_step word r h =
    let sign : bit_and r 1 <<< 15 % 65536 ≡ r % 2 * 2 ^ 15 = omega (arith, bit_and_bit 0 r) in
    rw
      (
        sign,
        bit_or_comm (r >>> 1) (r % 2 * 2 ^ 15),
        bit_or_fields 15 (r % 2) (r >>> 1) (omega arith),
      )
      (omega arith)

left_small : (size : Size) (r : ℕ) → r < limit size → left size r < limit size
left_small byte r h = omega arith
left_small word r h = omega arith

right_small : (size : Size) (r : ℕ) → r < limit size → right size r < limit size
right_small byte r h = omega arith
right_small word r h = omega arith

right-left : (size : Size) (r : ℕ) → r < limit size → right size (left size r) ≡ r
right-left byte r h = omega arith
right-left word r h = omega arith

-- A step that is repeated.
abbrev repeat : (ℕ → ℕ) → ℕ → ℕ → ℕ
repeat step zero r = r
repeat step (suc n) r = repeat step n (step r)

repeat_last : (step : ℕ → ℕ) (n r : ℕ) → repeat step n (step r) ≡ step (repeat step n r)
repeat_last step zero r = refl
repeat_last step (suc n) r = repeat_last step n (step r)

repeat-left_small : (size : Size) (n r : ℕ) → r < limit size → repeat (left size) n r < limit size
repeat-left_small size zero r h = h
repeat-left_small size (suc n) r h = repeat-left_small size n (left size r) (left_small size r h)

back : (size : Size) (n r : ℕ) → r < limit size → repeat (right size) n (repeat (left size) n r) ≡ r
back size zero r h = refl
back size (suc n) r h =
    ap (λ x. repeat (right size) n (right size x)) (repeat_last (left size) n r)
    ∙ ap (repeat (right size) n)
        (right-left size (repeat (left size) n r) (repeat-left_small size n r h))
    ∙ back size n r h

rol_loop_lem :
    (size : Size) (n r : ℕ) (f : Flags)
    → r < limit size
    → (rol_loop size n r f).0 ≡ repeat (left size) n r
unfolding rol_loop
rol_loop_lem size zero r f h = refl
rol_loop_lem size (suc n) r f h =
    let g = with_carry f (truthy (bit_and r (sign_bit size))) in
    ap (λ x. (rol_loop size n x g).0) (left_step size r h)
    ∙ rol_loop_lem size n (left size r) g (left_small size r h)

ror_loop_lem :
    (size : Size) (n r : ℕ) (f : Flags)
    → r < limit size
    → (ror_loop size n r f).0 ≡ repeat (right size) n r
unfolding ror_loop
ror_loop_lem size zero r f h = refl
ror_loop_lem size (suc n) r f h =
    let g = with_carry f (truthy (bit_and r 1)) in
    ap (λ x. (ror_loop size n x g).0) (right_step size r h)
    ∙ ror_loop_lem size n (right size r) g (right_small size r h)

rol_result :
    (size : Size) (v c : ℕ) (f : Flags)
    → v < limit size
    → (rol size v c f).0 ≡ repeat (left size) c v
unfolding rol
rol_result size v zero f h = refl
rol_result size v (suc c) f h =
    let some_count : (suc c == 0) ≡ false = ground arith in
    rw some_count (rol_loop_lem size (suc c) v f h)

ror_result :
    (size : Size) (v c : ℕ) (f : Flags)
    → v < limit size
    → (ror size v c f).0 ≡ repeat (right size) c v
unfolding ror
ror_result size v zero f h = refl
ror_result size v (suc c) f h =
    let some_count : (suc c == 0) ≡ false = ground arith in
    rw some_count (ror_loop_lem size (suc c) v f h)

-- `ROR` takes back `ROL`: rotating an operand of 8 or 16 bits left and then right by the same
-- count gives the operand, for every count and whatever the flags are.
pub ror-rol :
    (size : Size) (v c : ℕ) (f g : Flags) → v < limit size → (ror size (rol size v c f).0 c g).0 ≡ v
ror-rol size v c f g h =
    rw (rol_result size v c f h) (
      ror_result size (repeat (left size) c v) c g (repeat-left_small size c v h) ∙ back size c v h)
