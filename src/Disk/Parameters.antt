-- ===== src/Disk/Parameters.antt =====
-- The parameters that interrupt 0x13 reports (function 8 of io_out in src/modules/disk/disk.odin).
use libretro_virtualxt.Base.{
  ℕ, ◌+◌, ◌-◌, ◌*◌, ◌/◌, ◌%◌, ◌≤◌, ◌≡◌, refl, ap, ◌∙◌, arith, some, false, u8, u16, sub16, bit_and,
  bit_or, ◌>>>◌,
}
use libretro_virtualxt.Base.Bits.{bit_and_mask, bit_and_shifted, bit_or_fields}
use libretro_virtualxt.Disk.{Drive, Disk, Registers, drive_at, lba, parameters}

-- A geometry that the registers can hold.
abbrev Fits : Drive → Type 0
Fits drive =
    (1 ≤ drive.cylinders)
    × (drive.cylinders ≤ 1024)
    × (1 ≤ drive.sectors)
    × (drive.sectors ≤ 63)
    × (1 ≤ drive.heads)
    × (drive.heads ≤ 256)

-- The two fields of `cl`.
cl_fields : (y s : ℕ) → bit_or (bit_and (y >>> 2) 0xC0) (bit_and s 0x3F) ≡ y / 256 % 4 * 64 + s % 64
cl_fields y s =
    let high : bit_and (y >>> 2) 0xC0 ≡ y / 256 % 4 * 64 =
      bit_and_shifted 6 (y >>> 2) 3
      ∙ ap (λ n. n * 64) (bit_and_mask 2 ((y >>> 2) / 64) ∙ omega arith) in
    rw (high, bit_and_mask 6 s) (bit_or_fields 6 (y / 256 % 4) (s % 64) (omega arith))

-- `cl` as it is reported.
abbrev cl_of : ℕ → ℕ → ℕ
cl_of c s = u8 (bit_or (bit_and (sub16 c 1 >>> 2) 0xC0) (bit_and s 0x3F))

cl_value : (c s : ℕ) → 1 ≤ c → c ≤ 1024 → s ≤ 63 → cl_of c s ≡ (c - 1) / 256 * 64 + s
cl_value c s l u k =
    let low : sub16 c 1 ≡ c - 1 = omega arith in rw (cl_fields (sub16 c 1) s, low) (omega arith)

cylinder_field :
    (c s : ℕ)
    → 1 ≤ c
    → c ≤ 1024
    → s ≤ 63
    → u16 (u8 (bit_and (sub16 c 1) 0xFF) + cl_of c s / 64 * 256) + 1 ≡ c
cylinder_field c s l u k =
    let low : sub16 c 1 ≡ c - 1 = omega arith in
    rw (cl_value c s l u k, bit_and_mask 8 (sub16 c 1), low) (omega arith)

sector_field : (c s : ℕ) → 1 ≤ c → c ≤ 1024 → s ≤ 63 → bit_and (cl_of c s) 0x3F ≡ s
sector_field c s l u k =
    rw (cl_value c s l u k, bit_and_mask 6 ((c - 1) / 256 * 64 + s)) (omega arith)

one_more : (k s : ℕ) → (k + 1) * s ≡ k * s + s
one_more k s = ground arith

row : (k s : ℕ) → 1 ≤ s → k * s + s - 1 + 1 ≡ (k + 1) * s
row k s l = ground (arith, one_more k s)

-- The last sector.
last_lba :
    (drive : Drive) (c h : ℕ)
    → c + 1 ≡ drive.cylinders
    → h + 1 ≡ drive.heads
    → 1 ≤ drive.sectors
    → lba drive c drive.sectors h + 1 ≡ drive.cylinders * drive.heads * drive.sectors
last_lba drive c h e e' l =
    rw (← e, ← e', one_more c (h + 1))
      (row (c * (h + 1) + h) drive.sectors l ∙ ap (λ n. n * drive.sectors) (omega arith))

-- For a mounted drive of at most 1024 cylinders, 63 sectors and 256 heads, and none of them 0,
-- the registers that function 8 returns, read as the transfers read them, name the last cylinder,
-- sector and head, and that is the last sector of the drive: one less than the product of the
-- three.
pub parameters-place :
    (disk : Disk) (r : Registers) (fp : ℕ)
    → (drive_at disk r.dl).fp ≡ some fp
    → Fits (drive_at disk r.dl)
    → (let drive = drive_at disk r.dl in
        let r' = parameters disk r in
        (r'.carry ≡ false)
        × (u16 (r'.ch + r'.cl / 64 * 256) + 1 ≡ drive.cylinders)
        × (bit_and r'.cl 0x3F ≡ drive.sectors)
        × (r'.dh + 1 ≡ drive.heads)
        × (lba drive (u16 (r'.ch + r'.cl / 64 * 256)) (bit_and r'.cl 0x3F) r'.dh + 1
            ≡ drive.cylinders * drive.heads * drive.sectors))
unfolding parameters
parameters-place disk r fp e fits =
    let d = drive_at disk r.dl in
    let cylinders = cylinder_field d.cylinders d.sectors fits.0 fits.1 fits.3 in
    let sectors = sector_field d.cylinders d.sectors fits.0 fits.1 fits.3 in
    let heads : u8 (sub16 d.heads 1) + 1 ≡ d.heads = omega (arith, fits.4, fits.5) in
    rw (parameters, e)
      (
        refl,
        cylinders,
        sectors,
        heads,
        rw sectors (
            last_lba d
              (u16
                (u8 (bit_and (sub16 d.cylinders 1) 0xFF) + cl_of d.cylinders d.sectors / 64 * 256))
              (u8 (sub16 d.heads 1)) cylinders heads fits.2),
      )
