-- ===== src/Processor/Alu/Step.antt =====
-- `INC` and `DEC` of src/machine/processor/alu.odin against `ADD` and `SUB`.
use mathlib.Core.Path.{ap₂}
use libretro_virtualxt.Base.{ℕ, ◌+◌, ◌-◌, ◌<◌, ◌≡◌, ◌==◌, bit_and, arith}
use libretro_virtualxt.Base.Bits.{bit_and_mask}
use libretro_virtualxt.Processor.Flags.{
  Flags, Size, byte, word, limit, sign_bit, wrap, set_psz_flags,
}
use libretro_virtualxt.Processor.Alu.{
  add, sub, inc, dec, aux_flag, add_overflow, sub_overflow, minus,
}
use libretro_virtualxt.Processor.Alu.Bits.{add_overflow_bits, sub_overflow_bits, aux_bits}

inc_auxiliary :
    (size : Size) (a : ℕ)
    → (bit_and (wrap size (a + 1)) 0xf == 0) ≡ aux_flag a 1 (wrap size (a + 1))
inc_auxiliary byte a =
    rw (aux_bits a 1 (wrap byte (a + 1)), bit_and_mask 4 (wrap byte (a + 1))) (ground arith)
inc_auxiliary word a =
    rw (aux_bits a 1 (wrap word (a + 1)), bit_and_mask 4 (wrap word (a + 1))) (ground arith)

inc_overflow :
    (size : Size) (a : ℕ)
    → a < limit size
    → (wrap size (a + 1) == sign_bit size) ≡ add_overflow size a 1 (wrap size (a + 1))
inc_overflow byte a h = rw (add_overflow_bits byte a 1 (wrap byte (a + 1))) (ground arith)
inc_overflow word a h = rw (add_overflow_bits word a 1 (wrap word (a + 1))) (ground arith)

-- `INC` does what `ADD` of 1 does, except that it keeps the carry flag.
inc-add :
    (size : Size) (a : ℕ) (f : Flags)
    → a < limit size
    → inc size a f ≡ ((add size a 1 f).0, record (add size a 1 f).1 { carry = f.carry })
unfolding inc add
inc-add size a f h =
    ap₂
      (λ aux over. (
        wrap size (a + 1),
        record (set_psz_flags size (wrap size (a + 1)) f) {
          auxiliary = aux;
          overflow = over;
          carry = f.carry;
        },
      ))
      (inc_auxiliary size a) (inc_overflow size a h)

dec_auxiliary :
    (size : Size) (a : ℕ)
    → a < limit size
    → (bit_and (minus size a 1) 0xf == 0xf) ≡ aux_flag a 1 (minus size a 1)
dec_auxiliary byte a h =
    rw (aux_bits a 1 (minus byte a 1), bit_and_mask 4 (minus byte a 1)) (ground arith)
dec_auxiliary word a h =
    rw (aux_bits a 1 (minus word a 1), bit_and_mask 4 (minus word a 1)) (ground arith)

dec_overflow :
    (size : Size) (a : ℕ)
    → a < limit size
    → (minus size a 1 == sign_bit size - 1) ≡ sub_overflow size a 1 (minus size a 1)
dec_overflow byte a h = rw (sub_overflow_bits byte a 1 (minus byte a 1)) (ground arith)
dec_overflow word a h = rw (sub_overflow_bits word a 1 (minus word a 1)) (ground arith)

-- `DEC` does what `SUB` of 1 does, except that it keeps the carry flag.
dec-sub :
    (size : Size) (a : ℕ) (f : Flags)
    → a < limit size
    → dec size a f ≡ ((sub size a 1 f).0, record (sub size a 1 f).1 { carry = f.carry })
unfolding dec sub
dec-sub size a f h =
    ap₂
      (λ aux over. (
        minus size a 1,
        record (set_psz_flags size (minus size a 1) f) {
          auxiliary = aux;
          overflow = over;
          carry = f.carry;
        },
      ))
      (dec_auxiliary size a h) (dec_overflow size a h)

-- `INC` and `DEC` of an operand of 8 or 16 bits give the result and the flags of `ADD` and `SUB`
-- with 1, but for the carry flag, which they leave.
pub inc_dec_lem :
    (size : Size) (a : ℕ) (f : Flags)
    → a < limit size
    → (inc size a f ≡ ((add size a 1 f).0, record (add size a 1 f).1 { carry = f.carry }))
      × (dec size a f ≡ ((sub size a 1 f).0, record (sub size a 1 f).1 { carry = f.carry }))
inc_dec_lem size a f h = (inc-add size a f h, dec-sub size a f h)
