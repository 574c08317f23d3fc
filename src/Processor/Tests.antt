-- ===== src/Processor/Tests.antt =====
-- The arithmetic of the processor at concrete inputs.
use libretro_virtualxt.Base.{◌≡◌, refl, true, false, [], arith}
use libretro_virtualxt.Processor.Flags.{Flags, byte, word, set_psz_flags}
use libretro_virtualxt.Processor.Shift.{rol, ror}
use libretro_virtualxt.Processor.Shift.Rotate.{ror-rol}
use libretro_virtualxt.Processor.Alu.{add, adc, sub, sbb, inc, dec}
use libretro_virtualxt.Processor.Alu.Add.{IsSum, adc_lem}
use libretro_virtualxt.Processor.Alu.Subtract.{IsDifference, sbb_lem}
use libretro_virtualxt.Processor.Alu.Step.{inc_dec_lem}

-- Only the carry is set.
abbrev flags : Flags
flags = record {
  carry = true;
  parity = false;
  auxiliary = false;
  zero = false;
  sign = false;
  trap = false;
  interrupt = true;
  direction = false;
  overflow = false;
  reserved = [];
}

-- A carry that comes in and goes out, with an operand that the result equals.
adc_lem_example : IsSum byte 0x42 0xff 1 flags (adc byte 0x42 0xff flags)
adc_lem_example = adc_lem byte 0x42 0xff flags (omega arith) (omega arith)

added : (adc byte 0x42 0xff flags).0 ≡ 0x42
unfolding adc
added = refl

sbb_lem_example : IsDifference byte 0x10 0xff 1 flags (sbb byte 0x10 0xff flags)
sbb_lem_example = sbb_lem byte 0x10 0xff flags (omega arith) (omega arith)

borrowed : (sbb byte 0x10 0xff flags).1.carry ≡ true
unfolding sbb set_psz_flags
borrowed = refl

inc_dec_lem_example :
    (inc byte 0x7f flags
      ≡ ((add byte 0x7f 1 flags).0, record (add byte 0x7f 1 flags).1 { carry = true }))
    × (dec byte 0x7f flags
        ≡ ((sub byte 0x7f 1 flags).0, record (sub byte 0x7f 1 flags).1 { carry = true }))
inc_dec_lem_example = inc_dec_lem byte 0x7f flags (omega arith)

ror-rol_example : (ror word (rol word 0xbeef 21 flags).0 21 flags).0 ≡ 0xbeef
ror-rol_example = ror-rol word 0xbeef 21 flags flags (omega arith)
