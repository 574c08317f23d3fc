-- ===== src/Processor/Alu.antt =====
-- The arithmetic of the processor, src/machine/processor/alu.odin: the procedures on two operands
-- and on one, with the flags that they read and set. The cycles are not counted.
pub mod Bits
pub mod Add
pub mod Subtract
pub mod Step
use libretro_virtualxt.Base.{
  ℕ, ◌+◌, ◌-◌, ◌^◌, Bool, true, false, ◌&&◌, ◌||◌, ltb, ◌==◌, if◌then◌else◌, truthy, bit_and,
  bit_or, bit_xor,
}
use libretro_virtualxt.Processor.Flags.{Flags, Size, limit, sign_bit, wrap, set_psz_flags}

-- A subtraction that wraps.
abbrev pub minus : Size → ℕ → ℕ → ℕ
minus size a b = wrap size (a + limit size - b)

-- `.CARRY in registers.flags`, as a number.
abbrev pub carry_in : Flags → ℕ
carry_in f = if f.carry then 1 else 0

-- The overflow flag of an addition and of a subtraction, and the auxiliary flag of both.
abbrev pub add_overflow : Size → ℕ → ℕ → ℕ → Bool
add_overflow size a b res =
    truthy
      (bit_and (bit_and (bit_xor (bit_xor a b) (sign_bit size)) (bit_xor res a)) (sign_bit size))

abbrev pub sub_overflow : Size → ℕ → ℕ → ℕ → Bool
sub_overflow size a b res = truthy (bit_and (bit_and (bit_xor a b) (bit_xor res a)) (sign_bit size))

abbrev pub aux_flag : ℕ → ℕ → ℕ → Bool
aux_flag a b res = truthy (bit_and (bit_xor (bit_xor a b) res) 0x10)

-- `ADD`.
unfoldable pub add : Size → ℕ → ℕ → Flags → ℕ × Flags
unfolding set_psz_flags
add size a b f =
    let res = wrap size (a + b) in
    (
      res,
      record (set_psz_flags size res f) {
        overflow = add_overflow size a b res;
        auxiliary = aux_flag a b res;
        carry = ltb res a;
      },
    )

-- `ADC`.
unfoldable pub adc : Size → ℕ → ℕ → Flags → ℕ × Flags
unfolding set_psz_flags
adc size a b f =
    let res = wrap size (wrap size (a + b) + carry_in f) in
    (
      res,
      record (set_psz_flags size res f) {
        overflow = add_overflow size a b res;
        auxiliary = aux_flag a b res;
        carry = ltb res a || (f.carry && (res == a));
      },
    )

-- `SUB`.
unfoldable pub sub : Size → ℕ → ℕ → Flags → ℕ × Flags
unfolding set_psz_flags
sub size a b f =
    let res = minus size a b in
    (
      res,
      record (set_psz_flags size res f) {
        overflow = sub_overflow size a b res;
        auxiliary = aux_flag a b res;
        carry = ltb a b;
      },
    )

-- `SBB`.
unfoldable pub sbb : Size → ℕ → ℕ → Flags → ℕ × Flags
unfolding set_psz_flags
sbb size a b f =
    let res = minus size a (wrap size (b + carry_in f)) in
    (
      res,
      record (set_psz_flags size res f) {
        overflow = sub_overflow size a b res;
        auxiliary = aux_flag a b res;
        carry = ltb a res || (f.carry && (b == limit size - 1));
      },
    )

-- `AND`, `OR` and `XOR`.
abbrev logic_flags : Size → ℕ → Flags → Flags
logic_flags size res f = record (set_psz_flags size res f) { overflow = false; carry = false }

unfoldable and : Size → ℕ → ℕ → Flags → ℕ × Flags
unfolding set_psz_flags
and size a b f = (bit_and a b, logic_flags size (bit_and a b) f)

unfoldable or : Size → ℕ → ℕ → Flags → ℕ × Flags
unfolding set_psz_flags
or size a b f = (bit_or a b, logic_flags size (bit_or a b) f)

unfoldable xor : Size → ℕ → ℕ → Flags → ℕ × Flags
unfolding set_psz_flags
xor size a b f = (bit_xor a b, logic_flags size (bit_xor a b) f)

-- `INC_w`, and `INC_eb` on the loaded byte.
unfoldable pub inc : Size → ℕ → Flags → ℕ × Flags
unfolding set_psz_flags
inc size a f =
    let res = wrap size (a + 1) in
    (
      res,
      record (set_psz_flags size res f) {
        auxiliary = bit_and res 0xf == 0;
        overflow = res == sign_bit size;
      },
    )

-- `DEC_w`, and `DEC_eb` on the loaded byte.
unfoldable pub dec : Size → ℕ → Flags → ℕ × Flags
unfolding set_psz_flags
dec size a f =
    let res = minus size a 1 in
    (
      res,
      record (set_psz_flags size res f) {
        auxiliary = bit_and res 0xf == 0xf;
        overflow = res == sign_bit size - 1;
      },
    )
