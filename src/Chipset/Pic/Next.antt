-- ===== src/Chipset/Pic/Next.antt =====
-- What `pic_next` (src/modules/chipset/pic.odin) chooses, bit by bit.
use mathlib.Core.Path.{subst}
use libretro_virtualxt.Base.{
  ℕ, zero, suc, ◌+◌, ◌-◌, ◌^◌, ◌<◌, min, ◌≡◌, refl, sym, inl, inr, Bool, true, false, ◌&&◌, Option,
  none, some, ◌==◌, ==_iff, not, Bool-cases, if◌then◌else◌, truthy, get_or, u8, ◌<<<◌, not8,
  bit_and, bit_or, bit_xor, IsByte, arith,
}
use libretro_virtualxt.Base.Bits.{
  bit_at, bit_and_bit, bit_at-bit_and, bit_at-bit_or, bit_at-bit_xor, every_below,
  every_below-holds,
}
use libretro_virtualxt.Chipset.Pic.{Pic, next, next_loop, deliver}

masks : every_below (λ i. u8 (1 <<< i) == 2 ^ i) 8 ≡ true
unfolding every_below
masks = refl

-- The mask of a bit.
pub mask_bit : (i : ℕ) → i < 8 → u8 (1 <<< i) ≡ 2 ^ i
mask_bit i h = (==_iff (u8 (1 <<< i)) (2 ^ i)).0 (every_below-holds _ 8 i h masks)

abbrev complement_test : ℕ → ℕ → Bool
complement_test i m = bit_at (not8 m) i == 1 - bit_at m i

complements : every_below (λ i. every_below (complement_test i) 256) 8 ≡ true
unfolding every_below
complements = refl

bit_at-not8 : (m i : ℕ) → IsByte m → i < 8 → bit_at (not8 m) i ≡ 1 - bit_at m i
bit_at-not8 m i small h = (==_iff (bit_at (not8 m) i) (1 - bit_at m i)).0 (
    every_below-holds (complement_test i) 256 m small
      (every_below-holds (λ i. every_below (complement_test i) 256) 8 i h complements))

abbrev power_test : ℕ → ℕ → Bool
power_test i j = bit_at (2 ^ i) j == (if j == i then 1 else 0)

powers : every_below (λ i. every_below (power_test i) 8) 8 ≡ true
unfolding every_below
powers = refl

bit_at_pow : (i j : ℕ) → i < 8 → j < 8 → bit_at (2 ^ i) j ≡ (if j == i then 1 else 0)
bit_at_pow i j h k = (==_iff (bit_at (2 ^ i) j) (if j == i then 1 else 0)).0 (
    every_below-holds (power_test i) 8 j k
      (every_below-holds (λ i. every_below (power_test i) 8) 8 i h powers))

-- An interrupt that is requested, not masked and not in service.
abbrev wanted : Pic → ℕ → Bool
wanted p i =
    (bit_at p.request_reg i == 1) && (bit_at p.mask_reg i == 0) && (bit_at p.service_reg i == 0)

-- A mask of one bit tests the bit.
pub test_bit : (a i : ℕ) → truthy (bit_and a (2 ^ i)) ≡ (bit_at a i == 1)
test_bit a i = ground (arith, bit_and_bit i a)

choose :
    {A : Type 0} (r m s : ℕ) (x y : A)
    → r < 2
    → m < 2
    → s < 2
    → (if not (min r (1 - m) == 1) then y else if (r == 1) && not (s == 1) then x else y)
      ≡ (if (r == 1) && (m == 0) && (s == 0) then x else y)
choose r m s x y hr hm hs = ground arith

next_loop_step :
    (left i : ℕ) (p : Pic)
    → IsByte p.mask_reg
    → i < 8
    → next_loop (bit_and p.request_reg (not8 p.mask_reg)) (suc left) i p ≡ (
        if wanted p i
        then (some (u8 (get_or p.icw 2 0 + i)), deliver (2 ^ i) p)
        else next_loop (bit_and p.request_reg (not8 p.mask_reg)) left (i + 1) p)
unfolding next_loop
next_loop_step left i p small h =
    rw
      (
        mask_bit i h,
        test_bit (bit_and p.request_reg (not8 p.mask_reg)) i,
        test_bit p.request_reg i,
        test_bit p.service_reg i,
        bit_at-bit_and i p.request_reg (not8 p.mask_reg),
        bit_at-not8 p.mask_reg i small h,
      )
      (choose (bit_at p.request_reg i) (bit_at p.mask_reg i) (bit_at p.service_reg i) _ _
        (omega arith) (omega arith) (omega arith))

-- The state after the interrupt `i` is delivered: its request is over, it is in service, and no
-- other interrupt has changed.
abbrev IsDelivered : ℕ → Pic → Pic → Type 0
IsDelivered i p q =
    ((j : ℕ)
      → j < 8
      → (bit_at q.request_reg j ≡ (if j == i then 0 else bit_at p.request_reg j))
        × (bit_at q.service_reg j ≡ (if j == i then 1 else bit_at p.service_reg j)))
    × (q.mask_reg ≡ p.mask_reg)
    × (q.icw ≡ p.icw)
    × (q.icw_step ≡ p.icw_step)
    × (q.read_mode ≡ p.read_mode)

-- A set bit that is flipped, and a bit that is set.
pub flip_bit :
    (r i j : ℕ)
    → i < 8
    → j < 8
    → bit_at r i ≡ 1
    → bit_at (bit_xor r (2 ^ i)) j ≡ (if j == i then 0 else bit_at r j)
flip_bit r i j h k e = elim (Bool-cases (j == i)) [
  | inl same ↦
      let eq = (==_iff j i).0 same in
      rw (bit_at-bit_xor j r (2 ^ i), bit_at_pow i j h k, same, eq, e) refl
  | inr other ↦ rw (bit_at-bit_xor j r (2 ^ i), bit_at_pow i j h k, other) (omega arith)
]

set_bit :
    (r i j : ℕ) → i < 8 → j < 8 → bit_at (bit_or r (2 ^ i)) j ≡ (if j == i then 1 else bit_at r j)
set_bit r i j h k = elim (Bool-cases (j == i)) [
  | inl same ↦ rw (bit_at-bit_or j r (2 ^ i), bit_at_pow i j h k, same) (omega arith)
  | inr other ↦ rw (bit_at-bit_or j r (2 ^ i), bit_at_pow i j h k, other) (omega arith)
]

set_bit_twice :
    (r i j : ℕ)
    → i < 8
    → j < 8
    → bit_at (bit_or (bit_or r (2 ^ i)) (2 ^ i)) j ≡ (if j == i then 1 else bit_at r j)
set_bit_twice r i j h k = elim (Bool-cases (j == i)) [
  | inl same ↦ rw (set_bit (bit_or r (2 ^ i)) i j h k, same) refl
  | inr other ↦ rw (set_bit (bit_or r (2 ^ i)) i j h k, set_bit r i j h k, other) refl
]

deliver-IsDelivered :
    (i : ℕ) (p : Pic) → i < 8 → bit_at p.request_reg i ≡ 1 → IsDelivered i p (deliver (2 ^ i) p)
deliver-IsDelivered i p h e = elim (Bool-cases (truthy (bit_and (get_or p.icw 4 0) 2))) [
  | inl b ↦ rw b (
    (λ j k. (flip_bit p.request_reg i j h k e, set_bit p.service_reg i j h k)),
    refl,
    refl,
    refl,
    refl,
  )
  | inr b ↦ rw b (
    (λ j k. (flip_bit p.request_reg i j h k e, set_bit_twice p.service_reg i j h k)),
    refl,
    refl,
    refl,
    refl,
  )
]

-- What `pic_next` may give.
pub data Chooses (p : Pic) : Option ℕ × Pic → Type 0 where
  nothing : ((k : ℕ) → k < 8 → wanted p k ≡ false) → Chooses p (none, p)
  lowest :
      (i : ℕ) (q : Pic)
      → i < 8
      → wanted p i ≡ true
      → ((k : ℕ) → k < i → wanted p k ≡ false)
      → IsDelivered i p q
      → Chooses p (some (u8 (get_or p.icw 2 0 + i)), q)

next_loop-Chooses :
    (left i : ℕ) (p : Pic)
    → IsByte p.mask_reg
    → i + left ≡ 8
    → ((k : ℕ) → k < i → wanted p k ≡ false)
    → Chooses p (next_loop (bit_and p.request_reg (not8 p.mask_reg)) left i p)
unfolding next_loop
next_loop-Chooses zero i p small e before = nothing (λ k l. before k (omega arith))
next_loop-Chooses (suc left) i p small e before =
    subst (Chooses p) (sym (next_loop_step left i p small (omega arith)))
      (elim (Bool-cases (wanted p i)) [
        | inl w ↦ rw w (
            lowest i (deliver (2 ^ i) p) (omega arith) w before
              (deliver-IsDelivered i p (omega arith) (ground arith)))
        | inr w ↦ rw w (
            next_loop-Chooses left (i + 1) p small (omega arith) (λ k l.
              elim (Bool-cases (k == i)) [
                | inl same ↦ rw ((==_iff k i).0 same) w
                | inr other ↦ before k (ground arith)
              ]))
      ])

-- `pic_next` gives -1 and changes nothing if no interrupt is requested, unmasked and not in
-- service. Otherwise it gives the second initialisation word plus the number of the lowest such
-- interrupt, as a byte; the request of that interrupt is then over, it is in service, and nothing
-- else has changed. The mask register is a byte.
pub next_lem : (p : Pic) → IsByte p.mask_reg → Chooses p (next p)
unfolding next
next_lem p small = next_loop-Chooses 8 0 p small refl (λ k l. absurd (omega arith))
