-- ===== src/Processor/Alu/Subtract.antt =====
-- The subtractions of src/machine/processor/alu.odin against integer subtraction.
use libretro_virtualxt.Base.{
  ℕ, ◌+◌, ◌-◌, ◌%◌, ◌^◌, ◌<◌, ◌≡◌, refl, ap, not, ◌&&◌, ◌||◌, ltb, leb, ◌==◌, arith, Bool-cases,
  inl, inr,
}
use libretro_virtualxt.Processor.Flags.{
  Flags, Size, byte, word, limit, sign_bit, wrap, set_psz_flags,
}
use libretro_virtualxt.Processor.Flags.Parity.{count_bits, parity_lem, SameControl}
use libretro_virtualxt.Processor.Alu.{sub, sbb, carry_in, sub_overflow, aux_flag, minus}
use libretro_virtualxt.Processor.Alu.Bits.{sub_overflow_bits, aux_bits}
use libretro_virtualxt.Processor.Alu.Add.{lifted, sign_lem, wrap_small}

-- The difference of two operands and a borrow, with the flags as arithmetic defines them. The
-- limit is added to the signed difference, so that it is no less than 0.
abbrev pub IsDifference : Size → ℕ → ℕ → ℕ → Flags → ℕ × Flags → Type 0
IsDifference size a b c f (res, g) =
    (res ≡ wrap size (a + limit size - b + (limit size - c)))
    × (g.carry ≡ ltb a (b + c))
    × (g.auxiliary ≡ ltb (a % 16) (b % 16 + c))
    × (g.overflow
        ≡ not (
            leb (sign_bit size + lifted size b + c) (lifted size a + limit size)
            && ltb (lifted size a) (sign_bit size + lifted size b + c)))
    × (g.zero ≡ (res == 0))
    × (g.sign ≡ leb (sign_bit size) res)
    × (g.parity ≡ (count_bits (res % 2 ^ 8) 8 % 2 == 0))
    × SameControl f g

overflow_lem :
    (size : Size) (a b c r : ℕ)
    → a < limit size
    → b < limit size
    → c < 2
    → r ≡ wrap size (a + limit size - b + (limit size - c))
    → sub_overflow size a b r
      ≡ not (
          leb (sign_bit size + lifted size b + c) (lifted size a + limit size)
          && ltb (lifted size a) (sign_bit size + lifted size b + c))
overflow_lem byte a b c r ha hb hc e = rw (sub_overflow_bits byte a b r) (ground arith)
overflow_lem word a b c r ha hb hc e = rw (sub_overflow_bits word a b r) (ground arith)

auxiliary_lem :
    (size : Size) (a b c r : ℕ)
    → a < limit size
    → b < limit size
    → c < 2
    → r ≡ wrap size (a + limit size - b + (limit size - c))
    → aux_flag a b r ≡ ltb (a % 16) (b % 16 + c)
auxiliary_lem byte a b c r ha hb hc e = rw (aux_bits a b r) (ground arith)
auxiliary_lem word a b c r ha hb hc e = rw (aux_bits a b r) (ground arith)

same_difference :
    (size : Size) (a b c : ℕ)
    → a < limit size
    → b < limit size
    → c < 2
    → minus size a (wrap size (b + c)) ≡ wrap size (a + limit size - b + (limit size - c))
same_difference byte a b c ha hb hc = omega arith
same_difference word a b c ha hb hc = omega arith

borrow_lem :
    (size : Size) (a b : ℕ) (f : Flags)
    → a < limit size
    → b < limit size
    → (ltb a (minus size a (wrap size (b + carry_in f))) || (f.carry && (b == limit size - 1)))
      ≡ ltb a (b + carry_in f)
borrow_lem byte a b f ha hb = elim (Bool-cases f.carry) [
  | inl e ↦ rw e (ground arith)
  | inr e ↦ rw e (ground arith)
]
borrow_lem word a b f ha hb = elim (Bool-cases f.carry) [
  | inl e ↦ rw e (ground arith)
  | inr e ↦ rw e (ground arith)
]

carry_in_small : (f : Flags) → carry_in f < 2
carry_in_small f = ground arith

-- `SBB` of two operands of 8 or 16 bits gives their difference with the borrow, wrapped, and sets
-- the flags as integer arithmetic defines them: carry if it borrows, auxiliary carry if the low
-- digits borrow, overflow if the signed difference is out of range, zero, sign, and parity of the
-- low byte. The other flags stay.
pub sbb_lem :
    (size : Size) (a b : ℕ) (f : Flags)
    → a < limit size
    → b < limit size
    → IsDifference size a b (carry_in f) f (sbb size a b f)
unfolding sbb set_psz_flags
sbb_lem size a b f ha hb =
    let c = carry_in f in
    let r = minus size a (wrap size (b + c)) in
    let e : r ≡ wrap size (a + limit size - b + (limit size - c)) =
      same_difference size a b c ha hb (carry_in_small f) in
    (
      e,
      borrow_lem size a b f ha hb,
      auxiliary_lem size a b c r ha hb (carry_in_small f) e,
      overflow_lem size a b c r ha hb (carry_in_small f) e,
      refl,
      sign_lem size r (wrap_small size _),
      parity_lem r,
      (refl, refl, refl, refl),
    )

plain_difference :
    (size : Size) (a b : ℕ)
    → b < limit size
    → minus size a b ≡ wrap size (a + limit size - b + (limit size - 0))
plain_difference byte a b hb = omega arith
plain_difference word a b hb = omega arith

-- `SUB` of two operands of 8 or 16 bits gives their difference, wrapped, and sets the flags as
-- integer arithmetic defines them, whatever the carry was. The other flags stay.
sub_lem :
    (size : Size) (a b : ℕ) (f : Flags)
    → a < limit size
    → b < limit size
    → IsDifference size a b 0 f (sub size a b f)
unfolding sub set_psz_flags
sub_lem size a b f ha hb =
    let r = minus size a b in
    let e = plain_difference size a b hb in
    (
      e,
      ap (ltb a) (omega arith),
      auxiliary_lem size a b 0 r ha hb (omega arith) e,
      overflow_lem size a b 0 r ha hb (omega arith) e,
      refl,
      sign_lem size r (wrap_small size _),
      parity_lem r,
      (refl, refl, refl, refl),
    )
