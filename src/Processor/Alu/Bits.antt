-- ===== src/Processor/Alu/Bits.antt =====
-- The flags of an addition and of a subtraction that src/machine/processor/alu.odin takes from
-- bits of the operands and of the result, as digits.
use libretro_virtualxt.Base.{
  ℕ, ◌+◌, ◌%◌, ◌^◌, ◌≡◌, refl, min, truthy, ◌==◌, bit_and, bit_xor, arith,
}
use libretro_virtualxt.Base.Bits.{bit_at, bit_and_bit, bit_at-bit_and, bit_at-bit_xor}
use libretro_virtualxt.Processor.Flags.{Size, byte, word, sign_bit}
use libretro_virtualxt.Processor.Alu.{add_overflow, sub_overflow, aux_flag}

pub test_bit : (k x : ℕ) → truthy (bit_and x (2 ^ k)) ≡ (bit_at x k == 1)
test_bit k x = ground (arith, bit_and_bit k x)

-- The place of the sign.
abbrev pub sign_place : Size → ℕ
sign_place byte = 7
sign_place word = 15

pub test_sign :
    (size : Size) (x : ℕ) → truthy (bit_and x (sign_bit size)) ≡ (bit_at x (sign_place size) == 1)
test_sign byte x = test_bit 7 x
test_sign word x = test_bit 15 x

sign_bit_set : (size : Size) → bit_at (sign_bit size) (sign_place size) ≡ 1
sign_bit_set byte = refl
sign_bit_set word = refl

pub add_overflow_bits :
    (size : Size) (a b r : ℕ)
    → add_overflow size a b r ≡ (
        min
          (((bit_at a (sign_place size) + bit_at b (sign_place size)) % 2 + 1) % 2)
          ((bit_at r (sign_place size) + bit_at a (sign_place size)) % 2)
        == 1)
add_overflow_bits size a b r =
    let k = sign_place size in
    rw
      (
        test_sign size (bit_and (bit_xor (bit_xor a b) (sign_bit size)) (bit_xor r a)),
        bit_at-bit_and k (bit_xor (bit_xor a b) (sign_bit size)) (bit_xor r a),
        bit_at-bit_xor k (bit_xor a b) (sign_bit size),
        bit_at-bit_xor k a b,
        bit_at-bit_xor k r a,
        sign_bit_set size,
      )
      refl

pub sub_overflow_bits :
    (size : Size) (a b r : ℕ)
    → sub_overflow size a b r ≡ (
        min
          ((bit_at a (sign_place size) + bit_at b (sign_place size)) % 2)
          ((bit_at r (sign_place size) + bit_at a (sign_place size)) % 2)
        == 1)
sub_overflow_bits size a b r =
    let k = sign_place size in
    rw
      (
        test_sign size (bit_and (bit_xor a b) (bit_xor r a)),
        bit_at-bit_and k (bit_xor a b) (bit_xor r a),
        bit_at-bit_xor k a b,
        bit_at-bit_xor k r a,
      )
      refl

pub aux_bits :
    (a b r : ℕ) → aux_flag a b r ≡ (((bit_at a 4 + bit_at b 4) % 2 + bit_at r 4) % 2 == 1)
aux_bits a b r =
    rw
      (test_bit 4 (bit_xor (bit_xor a b) r), bit_at-bit_xor 4 (bit_xor a b) r, bit_at-bit_xor 4 a b)
      refl
