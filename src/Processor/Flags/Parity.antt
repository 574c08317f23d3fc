-- ===== src/Processor/Flags/Parity.antt =====
-- What the parity table (src/machine/processor/flags.odin) holds.
use libretro_virtualxt.Base.{
  ℕ, zero, suc, ◌+◌, ◌%◌, ◌^◌, ◌≡◌, refl, Bool, true, false, get_or, ◌==◌, bit_and, IsByte, arith,
}
use libretro_virtualxt.Base.Bits.{bit_at, bit_and_mask, every_below, every_below-holds}
use libretro_virtualxt.Processor.Flags.{Flags, parity_table}

-- The number of ones among the lowest digits.
abbrev pub count_bits : ℕ → ℕ → ℕ
count_bits v zero = 0
count_bits v (suc k) = bit_at v k + count_bits v k

same : Bool → Bool → Bool
same true b = b
same false true = false
same false false = true

same_sound : (a b : Bool) → same a b ≡ true → a ≡ b
unfolding same
same_sound true true h = refl
same_sound true false h = absurd (cc)
same_sound false true h = absurd (cc)
same_sound false false h = refl

abbrev entry_test : ℕ → Bool
entry_test v = same (get_or parity_table v false) (count_bits v 8 % 2 == 0)

entries : every_below entry_test 256 ≡ true
unfolding every_below same parity_table
entries = refl

-- The parity table is true exactly at the bytes with an even number of ones.
parity_table_lem : (v : ℕ) → IsByte v → get_or parity_table v false ≡ (count_bits v 8 % 2 == 0)
parity_table_lem v h =
    same_sound (get_or parity_table v false) (count_bits v 8 % 2 == 0)
      (every_below-holds entry_test 256 v h entries)

-- The parity flag looks at the lowest byte of a result.
pub parity_lem :
    (v : ℕ) → get_or parity_table (bit_and v 0xff) false ≡ (count_bits (v % 2 ^ 8) 8 % 2 == 0)
parity_lem v = rw (bit_and_mask 8 v) (parity_table_lem (v % 2 ^ 8) (omega arith))

-- The flags that no arithmetic changes.
abbrev pub SameControl : Flags → Flags → Type 0
SameControl f g =
    (g.trap ≡ f.trap)
    × (g.interrupt ≡ f.interrupt)
    × (g.direction ≡ f.direction)
    × (g.reserved ≡ f.reserved)
