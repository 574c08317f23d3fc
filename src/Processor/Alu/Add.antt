-- ===== src/Processor/Alu/Add.antt =====
-- The additions of src/machine/processor/alu.odin against integer addition.
use libretro_virtualxt.Base.{
  ℕ, ◌+◌, ◌%◌, ◌^◌, ◌<◌, ◌≡◌, refl, ap, not, ◌&&◌, ◌||◌, ltb, leb, ◌==◌, truthy, bit_and, arith,
  Bool-cases, inl, inr,
}
use libretro_virtualxt.Processor.Flags.{
  Flags, Size, byte, word, limit, sign_bit, wrap, set_psz_flags,
}
use libretro_virtualxt.Processor.Flags.Parity.{count_bits, parity_lem, SameControl}
use libretro_virtualxt.Processor.Alu.{add, adc, carry_in, add_overflow, aux_flag}
use libretro_virtualxt.Processor.Alu.Bits.{test_sign, add_overflow_bits, aux_bits}

-- The signed value of a pattern, plus half the limit.
abbrev pub lifted : Size → ℕ → ℕ
lifted size a = wrap size (a + sign_bit size)

-- The sum of two operands and a carry, with the flags as arithmetic defines them.
abbrev pub IsSum : Size → ℕ → ℕ → ℕ → Flags → ℕ × Flags → Type 0
IsSum size a b c f (res, g) =
    (res ≡ wrap size (a + b + c))
    × (g.carry ≡ leb (limit size) (a + b + c))
    × (g.auxiliary ≡ leb 16 (a % 16 + b % 16 + c))
    × (g.overflow
        ≡ not (
            leb (sign_bit size) (lifted size a + lifted size b + c)
            && ltb (lifted size a + lifted size b + c) (sign_bit size + limit size)))
    × (g.zero ≡ (res == 0))
    × (g.sign ≡ leb (sign_bit size) res)
    × (g.parity ≡ (count_bits (res % 2 ^ 8) 8 % 2 == 0))
    × SameControl f g

overflow_lem :
    (size : Size) (a b c r : ℕ)
    → a < limit size
    → b < limit size
    → c < 2
    → r ≡ wrap size (a + b + c)
    → add_overflow size a b r
      ≡ not (
          leb (sign_bit size) (lifted size a + lifted size b + c)
          && ltb (lifted size a + lifted size b + c) (sign_bit size + limit size))
overflow_lem byte a b c r ha hb hc e = rw (add_overflow_bits byte a b r) (ground arith)
overflow_lem word a b c r ha hb hc e = rw (add_overflow_bits word a b r) (ground arith)

auxiliary_lem :
    (size : Size) (a b c r : ℕ)
    → c < 2
    → r ≡ wrap size (a + b + c)
    → aux_flag a b r ≡ leb 16 (a % 16 + b % 16 + c)
auxiliary_lem byte a b c r hc e = rw (aux_bits a b r) (ground arith)
auxiliary_lem word a b c r hc e = rw (aux_bits a b r) (ground arith)

carry_lem :
    (size : Size) (a b : ℕ) (f : Flags)
    → a < limit size
    → b < limit size
    → (ltb (wrap size (wrap size (a + b) + carry_in f)) a
        || (f.carry && (wrap size (wrap size (a + b) + carry_in f) == a)))
      ≡ leb (limit size) (a + b + carry_in f)
carry_lem byte a b f ha hb = elim (Bool-cases f.carry) [
  | inl e ↦ rw e (ground arith)
  | inr e ↦ rw e (ground arith)
]
carry_lem word a b f ha hb = elim (Bool-cases f.carry) [
  | inl e ↦ rw e (ground arith)
  | inr e ↦ rw e (ground arith)
]

wrap_twice : (size : Size) (a b c : ℕ) → wrap size (wrap size (a + b) + c) ≡ wrap size (a + b + c)
wrap_twice byte a b c = omega arith
wrap_twice word a b c = omega arith

pub wrap_small : (size : Size) (n : ℕ) → wrap size n < limit size
wrap_small byte n = omega arith
wrap_small word n = omega arith

pub sign_lem :
    (size : Size) (r : ℕ)
    → r < limit size
    → truthy (bit_and r (sign_bit size)) ≡ leb (sign_bit size) r
sign_lem byte r h = rw (test_sign byte r) (ground arith)
sign_lem word r h = rw (test_sign word r) (ground arith)

carry_in_small : (f : Flags) → carry_in f < 2
carry_in_small f = ground arith

-- `ADC` of two operands of 8 or 16 bits gives their sum with the carry, wrapped, and sets the
-- flags as integer arithmetic defines them: carry if the sum does not fit the width, auxiliary
-- carry if the sum of the low digits does not fit four bits, overflow if the signed sum is out of
-- range, zero, sign, and parity of the low byte. The other flags stay.
pub adc_lem :
    (size : Size) (a b : ℕ) (f : Flags)
    → a < limit size
    → b < limit size
    → IsSum size a b (carry_in f) f (adc size a b f)
unfolding adc set_psz_flags
adc_lem size a b f ha hb =
    let r = wrap size (wrap size (a + b) + carry_in f) in
    let e : r ≡ wrap size (a + b + carry_in f) = wrap_twice size a b (carry_in f) in
    (
      e,
      carry_lem size a b f ha hb,
      auxiliary_lem size a b (carry_in f) r (carry_in_small f) e,
      overflow_lem size a b (carry_in f) r ha hb (carry_in_small f) e,
      refl,
      sign_lem size r (wrap_small size (wrap size (a + b) + carry_in f)),
      parity_lem r,
      (refl, refl, refl, refl),
    )

add_carry :
    (size : Size) (a b : ℕ)
    → a < limit size
    → b < limit size
    → ltb (wrap size (a + b)) a ≡ leb (limit size) (a + b + 0)
add_carry byte a b ha hb = ground arith
add_carry word a b ha hb = ground arith

-- `ADD` of two operands of 8 or 16 bits gives their sum, wrapped, and sets the flags as integer
-- arithmetic defines them, whatever the carry was. The other flags stay.
add_lem :
    (size : Size) (a b : ℕ) (f : Flags)
    → a < limit size
    → b < limit size
    → IsSum size a b 0 f (add size a b f)
unfolding add set_psz_flags
add_lem size a b f ha hb =
    let r = wrap size (a + b) in
    let e : r ≡ wrap size (a + b + 0) = ap (wrap size) (omega arith) in
    (
      e,
      add_carry size a b ha hb,
      auxiliary_lem size a b 0 r (omega arith) e,
      overflow_lem size a b 0 r ha hb (omega arith) e,
      refl,
      sign_lem size r (wrap_small size (a + b)),
      parity_lem r,
      (refl, refl, refl, refl),
    )
