-- ===== src/Processor/Flags.antt =====
-- The flags of the processor, src/machine/processor/flags.odin, as Booleans. What the parity table
-- holds is shown in Flags/Parity.antt.
pub mod Parity
use libretro_virtualxt.Base.{
  ℕ, ◌%◌, ◌^◌, Bool, true, false, List, [], ◌∷◌, get_or, truthy, ◌==◌, bit_and,
}

-- `Peripheral_CPU_Flags`; `reserved` holds `RESERVED_0` to `RESERVED_6`.
pub record Flags : Type 0 where
  pub carry : Bool
  pub parity : Bool
  pub auxiliary : Bool
  pub zero : Bool
  pub sign : Bool
  pub trap : Bool
  pub interrupt : Bool
  pub direction : Bool
  pub overflow : Bool
  pub reserved : List Bool

-- The two widths of an operand: the procedures of the source that end in `_b` and in `_w`.
pub data Size : Type 0 where
  byte word : Size

-- The values of a width are those below its limit.
abbrev pub limit : Size → ℕ
limit byte = 0x100
limit word = 0x10000

-- The bit of the sign.
abbrev pub sign_bit : Size → ℕ
sign_bit byte = 0x80
sign_bit word = 0x8000

-- The arithmetic of a width wraps.
abbrev pub wrap : Size → ℕ → ℕ
wrap byte n = n % 2 ^ 8
wrap word n = n % 2 ^ 16

-- `PARITY_TABLE`.
unfoldable pub parity_table : List Bool
parity_table =
    true ∷ false ∷ false ∷ true ∷ false ∷ true ∷ true ∷ false ∷ false ∷ true ∷ true ∷ false ∷ true
    ∷ false ∷ false ∷ true ∷ false ∷ true ∷ true ∷ false ∷ true ∷ false ∷ false ∷ true ∷ true
    ∷ false ∷ false ∷ true ∷ false ∷ true ∷ true ∷ false ∷ false ∷ true ∷ true ∷ false ∷ true
    ∷ false ∷ false ∷ true ∷ true ∷ false ∷ false ∷ true ∷ false ∷ true ∷ true ∷ false ∷ true
    ∷ false ∷ false ∷ true ∷ false ∷ true ∷ true ∷ false ∷ false ∷ true ∷ true ∷ false ∷ true
    ∷ false ∷ false ∷ true ∷ false ∷ true ∷ true ∷ false ∷ true ∷ false ∷ false ∷ true ∷ true
    ∷ false ∷ false ∷ true ∷ false ∷ true ∷ true ∷ false ∷ true ∷ false ∷ false ∷ true ∷ false
    ∷ true ∷ true ∷ false ∷ false ∷ true ∷ true ∷ false ∷ true ∷ false ∷ false ∷ true ∷ true ∷ false
    ∷ false ∷ true ∷ false ∷ true ∷ true ∷ false ∷ false ∷ true ∷ true ∷ false ∷ true ∷ false
    ∷ false ∷ true ∷ false ∷ true ∷ true ∷ false ∷ true ∷ false ∷ false ∷ true ∷ true ∷ false
    ∷ false ∷ true ∷ false ∷ true ∷ true ∷ false ∷ false ∷ true ∷ true ∷ false ∷ true ∷ false
    ∷ false ∷ true ∷ true ∷ false ∷ false ∷ true ∷ false ∷ true ∷ true ∷ false ∷ true ∷ false
    ∷ false ∷ true ∷ false ∷ true ∷ true ∷ false ∷ false ∷ true ∷ true ∷ false ∷ true ∷ false
    ∷ false ∷ true ∷ true ∷ false ∷ false ∷ true ∷ false ∷ true ∷ true ∷ false ∷ false ∷ true ∷ true
    ∷ false ∷ true ∷ false ∷ false ∷ true ∷ false ∷ true ∷ true ∷ false ∷ true ∷ false ∷ false
    ∷ true ∷ true ∷ false ∷ false ∷ true ∷ false ∷ true ∷ true ∷ false ∷ true ∷ false ∷ false ∷ true
    ∷ false ∷ true ∷ true ∷ false ∷ false ∷ true ∷ true ∷ false ∷ true ∷ false ∷ false ∷ true
    ∷ false ∷ true ∷ true ∷ false ∷ true ∷ false ∷ false ∷ true ∷ true ∷ false ∷ false ∷ true
    ∷ false ∷ true ∷ true ∷ false ∷ false ∷ true ∷ true ∷ false ∷ true ∷ false ∷ false ∷ true ∷ true
    ∷ false ∷ false ∷ true ∷ false ∷ true ∷ true ∷ false ∷ true ∷ false ∷ false ∷ true ∷ false
    ∷ true ∷ true ∷ false ∷ false ∷ true ∷ true ∷ false ∷ true ∷ false ∷ false ∷ true ∷ []

-- `set_psz_flags`.
unfoldable pub set_psz_flags : Size → ℕ → Flags → Flags
set_psz_flags size v f = record f {
  parity = get_or parity_table (bit_and v 0xff) false;
  sign = truthy (bit_and v (sign_bit size));
  zero = v == 0;
}
