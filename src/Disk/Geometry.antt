-- ===== src/Disk/Geometry.antt =====
-- The geometry of an image and the places of its sectors (`lba` and mount_disk of
-- src/modules/disk/disk.odin).
use libretro_virtualxt.Base.{
  ℕ, zero, suc, ap, ◌+◌, ◌-◌, ◌*◌, ◌/◌, ◌≤◌, ◌<◌, ◌≡◌, ◌≢◌, refl, arith, Bool-cases, inl, inr,
  Option, ◌==◌, ==_iff, ◌||◌, true, u16,
}
use libretro_virtualxt.Disk.{Drive, lba, sector_size}
use libretro_virtualxt.Disk.Mount.{geometry}

-- A cylinder, a sector and a head that the drive has; sectors are counted from 1.
abbrev pub IsPlace : Drive → ℕ → ℕ → ℕ → Type 0
IsPlace drive c s h = (c < drive.cylinders) × (1 ≤ s) × (s ≤ drive.sectors) × (h < drive.heads)

-- What holds of all the shapes holds of the geometry.
geometry-shapes :
    (P : ℕ → ℕ → ℕ → Type 0) (fp : Option ℕ) (size : ℕ)
    → ((size == 512 || size == 163840) ≡ true → P 40 8 1)
    → (size ≡ 368640 → P 40 9 2)
    → (size ≡ 737280 → P 80 9 2)
    → (size ≡ 1228800 → P 80 15 2)
    → (size ≡ 1474560 → P 80 18 2)
    → P (u16 (size / (63 * 16 * sector_size))) 63 16
    → P (geometry fp size).cylinders (geometry fp size).sectors (geometry fp size).heads
unfolding geometry
geometry-shapes P fp size p1 p2 p3 p4 p5 p6 = elim (Bool-cases (size == 512 || size == 163840)) [
  | inl e ↦ rw (geometry, e) (p1 e)
  | inr e ↦ elim (Bool-cases (size == 368640)) [
    | inl e2 ↦ rw (geometry, e, e2) (p2 ((==_iff size 368640).0 e2))
    | inr e2 ↦ elim (Bool-cases (size == 737280)) [
      | inl e3 ↦ rw (geometry, e, e2, e3) (p3 ((==_iff size 737280).0 e3))
      | inr e3 ↦ elim (Bool-cases (size == 1228800)) [
        | inl e4 ↦ rw (geometry, e, e2, e3, e4) (p4 ((==_iff size 1228800).0 e4))
        | inr e4 ↦ elim (Bool-cases (size == 1474560)) [
          | inl e5 ↦ rw (geometry, e, e2, e3, e4, e5) (p5 ((==_iff size 1474560).0 e5))
          | inr e5 ↦ rw (geometry, e, e2, e3, e4, e5) p6
        ]
      ]
    ]
  ]
]

abbrev InRange : ℕ → ℕ → ℕ → ℕ → ℕ → ℕ → Type 0
InRange c s h cylinders sectors heads = (c < cylinders) × (1 ≤ s) × (s ≤ sectors) × (h < heads)

-- Every cylinder, head and sector of the geometry that `mount_disk` gives an image lies within
-- the image, whatever its size is but 512.
pub lba-room :
    (fp : Option ℕ) (size c s h : ℕ)
    → size ≢ 512
    → IsPlace (geometry fp size) c s h
    → lba (geometry fp size) c s h * sector_size + sector_size ≤ size
lba-room fp size c s h ne =
    geometry-shapes
      (λ cylinders sectors heads.
        InRange c s h cylinders sectors heads
        → ((c * heads + h) * sectors + s - 1) * sector_size + sector_size ≤ size)
      fp size
      (λ e p. (let n : size ≡ 163840 = ground arith in omega (arith, n, p.0, p.1, p.2, p.3)))
      (λ n p. omega (arith, n, p.0, p.1, p.2, p.3)) (λ n p. omega (arith, n, p.0, p.1, p.2, p.3))
      (λ n p. omega (arith, n, p.0, p.1, p.2, p.3)) (λ n p. omega (arith, n, p.0, p.1, p.2, p.3))
      (λ p. omega (arith, p.0, p.1, p.2, p.3))

-- A number has one quotient and one remainder.
digits_unique : (m x y x' y' : ℕ) → y < m → y' < m → x * m + y ≡ x' * m + y' → (x ≡ x') × (y ≡ y')
digits_unique m zero y zero y' h h' e = (refl, omega (arith, e))
digits_unique m zero y (suc x') y' h h' e = absurd (ground (arith, e))
digits_unique m (suc x) y zero y' h h' e = absurd (ground (arith, e))
digits_unique m (suc x) y (suc x') y' h h' e =
    let (p, q) = digits_unique m x y x' y' h h' (ground (arith, e)) in (ap suc p, q)

pub lba_unique :
    (drive : Drive) (c s h c' s' h' : ℕ)
    → IsPlace drive c s h
    → IsPlace drive c' s' h'
    → lba drive c s h ≡ lba drive c' s' h'
    → (c ≡ c') × (s ≡ s') × (h ≡ h')
lba_unique drive c s h c' s' h' p q same =
    let (rows, columns) =
      digits_unique drive.sectors (c * drive.heads + h) (s - 1) (c' * drive.heads + h') (s' - 1)
        (omega (arith, p.1, p.2)) (omega (arith, q.1, q.2)) (omega (arith, same, p.1, q.1)) in
    let (cylinders, heads) = digits_unique drive.heads c h c' h' p.3 q.3 rows in
    (cylinders, omega (arith, columns, p.1, q.1), heads)
