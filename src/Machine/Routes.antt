-- ===== src/Machine/Routes.antt =====
-- Where an access goes once a peripheral has registered its addresses
-- (src/machine/peripheral/interface.odin).
use libretro_virtualxt.Base.{
  ℕ, zero, suc, ◌+◌, ◌-◌, ◌/◌, ◌%◌, ◌^◌, ◌<◌, ◌≤◌, ◌≡◌, refl, ap, inl, inr, false, ◌&&◌, Bool-cases,
  some, leb, ltb, if◌then◌else◌, u8, u32, ◌>>>◌, bit_and, bit_or, truthy, arith,
}
use libretro_virtualxt.Base.Bits.{bit_and_mask, bit_or_halves}
use libretro_virtualxt.Machine.{
  Manager, store, fill, register_memory_address_range, peripheral, read_memory, write_memory,
}

fill_lem :
    (array : ℕ → ℕ) (v left from j : ℕ)
    → fill array v left from j ≡ (if leb from j && ltb j (from + left) then v else array j)
unfolding fill
fill_lem array v zero from j = ground arith
fill_lem array v (suc left) from j =
    ground (arith, fill_lem (store array from v) v left (from + 1) j)

-- Alignment, on the four low bits.
or_aligned : (a b : ℕ) → a % 16 ≡ 0 → b % 16 ≡ 0 → bit_or a b % 16 ≡ 0
or_aligned a b h k = omega (
  arith,
  bit_or_halves a b,
  bit_or_halves (a / 2) (b / 2),
  bit_or_halves (a / 2 / 2) (b / 2 / 2),
  bit_or_halves (a / 2 / 2 / 2) (b / 2 / 2 / 2),
)

accepted :
    (from to : ℕ)
    → from % 16 ≡ 0
    → to % 16 ≡ 15
    → to < 2 ^ 20
    → truthy (bit_and (bit_or from (u32 (to + 1))) 0xf) ≡ false
accepted from to h k small =
    ground (arith, bit_and_mask 4 (bit_or from (u32 (to + 1))), or_aligned from (u32 (to + 1)))

paragraph : (a : ℕ) → a < 2 ^ 20 → bit_and (a >>> 4) 0xffff ≡ a / 16
paragraph a h = omega (arith, bit_and_mask 16 (a >>> 4))

in_range :
    (from to a : ℕ)
    → from % 16 ≡ 0
    → to % 16 ≡ 15
    → from ≤ to
    → (leb (from / 16) (a / 16) && ltb (a / 16) (from / 16 + (to / 16 + 1 - from / 16)))
      ≡ (leb from a && leb a to)
in_range from to a h k l = ground arith

masked : (a : ℕ) → a < 2 ^ 20 → bit_and a 0xfffff ≡ a
masked a h = omega (arith, bit_and_mask 20 a)

-- An access below 1 MB.
pub read_memory_at :
    {S : Type 0} (m : Manager S) (s : S) (a : ℕ)
    → a < 2 ^ 20
    → read_memory m s a ≡ (peripheral m (m.memory_map (a >>> 4))).read s a
unfolding read_memory
read_memory_at m s a h = ap (λ x. (peripheral m (m.memory_map (x >>> 4))).read s x) (masked a h)

pub write_memory_at :
    {S : Type 0} (m : Manager S) (s : S) (a v : ℕ)
    → a < 2 ^ 20
    → write_memory m s a v ≡ (peripheral m (m.memory_map (a >>> 4))).write s a v
unfolding write_memory
write_memory_at m s a v h =
    ap (λ x. (peripheral m (m.memory_map (x >>> 4))).write s x v) (masked a h)

-- The map after a registration, at the paragraph of an address.
routed :
    (array : ℕ → ℕ) (pidx from to a : ℕ)
    → pidx < 2 ^ 8
    → from % 16 ≡ 0
    → to % 16 ≡ 15
    → from ≤ to
    → fill array (u8 pidx) (to / 16 + 1 - from / 16) (from / 16) (a >>> 4)
      ≡ (if leb from a && leb a to then pidx else array (a >>> 4))
routed array pidx from to a byte h k l =
    let v : u8 pidx ≡ pidx = omega arith in
    rw
      (
        fill_lem array (u8 pidx) (to / 16 + 1 - from / 16) (from / 16) (a >>> 4),
        in_range from to a h k l,
        v,
      )
      refl

-- A peripheral that registers an aligned range of addresses below 1 MB gets every read and write
-- of the machine in the range, and every other address below 1 MB goes where it went before.
pub registered :
    {S : Type 0} (m : Manager S) (pidx from to : ℕ)
    → pidx < 2 ^ 8
    → from % 16 ≡ 0
    → to % 16 ≡ 15
    → from ≤ to
    → to < 2 ^ 20
    → (m' : Manager S) × (register_memory_address_range m pidx from to ≡ some m')
      × ((s : S) (a : ℕ)
          → a < 2 ^ 20
          → read_memory m' s a
            ≡ (if leb from a && leb a to then (peripheral m pidx).read s a else read_memory m s a))
      × ((s : S) (a v : ℕ)
          → a < 2 ^ 20
          → write_memory m' s a v ≡ (
              if leb from a && leb a to
              then (peripheral m pidx).write s a v
              else write_memory m s a v))
unfolding register_memory_address_range
registered m pidx from to byte h k l small =
    let m' = record m {
      memory_map = fill m.memory_map (u8 pidx) (to / 16 + 1 - from / 16) (from / 16);
    } in
    (
      m',
      rw (accepted from to h k small, paragraph from (omega arith), paragraph to small) refl,
      (λ s a i. elim (Bool-cases (leb from a && leb a to)) [
        | inl b ↦
            rw (read_memory_at m' s a i, routed m.memory_map pidx from to a byte h k l, b) refl
        | inr b ↦
            rw
              (
                read_memory_at m' s a i,
                read_memory_at m s a i,
                routed m.memory_map pidx from to a byte h k l,
                b,
              )
              refl
      ]),
      (λ s a v i. elim (Bool-cases (leb from a && leb a to)) [
        | inl b ↦
            rw (write_memory_at m' s a v i, routed m.memory_map pidx from to a byte h k l, b) refl
        | inr b ↦
            rw
              (
                write_memory_at m' s a v i,
                write_memory_at m s a v i,
                routed m.memory_map pidx from to a byte h k l,
                b,
              )
              refl
      ]),
    )
