-- ===== src/Processor/Shift.antt =====
-- The shifts and rotations of the processor, src/machine/processor/alu.odin. The count is a byte;
-- the loops recurse on what is left of it. The cycles are not counted.
pub mod Left
pub mod Right
pub mod Rotate
use libretro_virtualxt.Base.{
  ℕ, zero, suc, ◌+◌, ◌-◌, ◌*◌, ◌/◌, ◌%◌, ◌^◌, Bool, true, false, ◌&&◌, not, ◌==◌, if◌then◌else◌,
  truthy, ◌<<<◌, ◌>>>◌, bit_and, bit_or, bit_xor,
}
use libretro_virtualxt.Processor.Flags.{Flags, Size, byte, word, sign_bit, wrap, set_psz_flags}
use libretro_virtualxt.Processor.Alu.{carry_in}

-- The place of the sign.
abbrev pub sign_place : Size → ℕ
sign_place byte = 7
sign_place word = 15

abbrev pub with_carry : Flags → Bool → Flags
with_carry f b = record f { carry = b }

unfoldable pub shl_loop : Size → ℕ → ℕ → Flags → ℕ × Flags
shl_loop size zero r f = (r, f)
shl_loop size (suc left) r f =
    shl_loop size left (wrap size (r <<< 1)) (with_carry f (truthy (bit_and r (sign_bit size))))

-- `SHL`.
unfoldable pub shl : Size → ℕ → ℕ → Flags → ℕ × Flags
unfolding shl_loop set_psz_flags
shl size v c f =
    if c == 0
    then (v, f)
    else let (r, g) = shl_loop size c v f in
      (
        r,
        set_psz_flags size r (record g { overflow = not ((r >>> sign_place size) == carry_in g) }),
      )

unfoldable pub shr_loop : ℕ → ℕ → Flags → ℕ × Flags
shr_loop zero r f = (r, f)
shr_loop (suc left) r f = shr_loop left (r >>> 1) (with_carry f (truthy (bit_and r 1)))

-- `SHR`.
unfoldable pub shr : Size → ℕ → ℕ → Flags → ℕ × Flags
unfolding shr_loop set_psz_flags
shr size v c f =
    if c == 0
    then (v, f)
    else let (r, g) = shr_loop c v f in
      (
        r,
        set_psz_flags size r
            (record g { overflow = (c == 1) && truthy (bit_and v (sign_bit size)) }),
      )

unfoldable sar_loop : Size → ℕ → ℕ → Flags → ℕ × Flags
sar_loop size zero r f = (r, f)
sar_loop size (suc left) r f =
    sar_loop size left (bit_or (r >>> 1) (bit_and r (sign_bit size)))
      (with_carry f (truthy (bit_and r 1)))

-- `SAR`.
unfoldable sar : Size → ℕ → ℕ → Flags → ℕ × Flags
unfolding sar_loop set_psz_flags
sar size v c f =
    if c == 0
    then (v, f)
    else let (r, g) = sar_loop size c v f in
      (r, set_psz_flags size r (record g { overflow = false }))

unfoldable pub rol_loop : Size → ℕ → ℕ → Flags → ℕ × Flags
rol_loop size zero r f = (r, f)
rol_loop size (suc left) r f =
    let s = bit_and r (sign_bit size) in
    rol_loop size left (bit_or (wrap size (r <<< 1)) (s >>> sign_place size))
      (with_carry f (truthy s))

-- `ROL`, with `flags_overflow_left`.
unfoldable pub rol : Size → ℕ → ℕ → Flags → ℕ × Flags
unfolding rol_loop
rol size v c f =
    if c == 0
    then (v, f)
    else let (r, g) = rol_loop size c v f in
      (r, record g { overflow = truthy (bit_xor (carry_in g) (r >>> sign_place size)) })

unfoldable pub ror_loop : Size → ℕ → ℕ → Flags → ℕ × Flags
ror_loop size zero r f = (r, f)
ror_loop size (suc left) r f =
    let s = bit_and r 1 in
    ror_loop size left (bit_or (r >>> 1) (wrap size (s <<< sign_place size)))
      (with_carry f (truthy s))

-- `ROR`, with `flags_overflow_right`.
unfoldable pub ror : Size → ℕ → ℕ → Flags → ℕ × Flags
unfolding ror_loop
ror size v c f =
    if c == 0
    then (v, f)
    else let (r, g) = ror_loop size c v f in
      let s = r >>> (sign_place size - 1) in
      (r, record g { overflow = truthy (bit_xor (s >>> 1) (bit_and s 1)) })
