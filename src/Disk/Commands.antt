-- ===== src/Disk/Commands.antt =====
-- The transfer functions of interrupt 0x13 on an image (execute_operation and execute_and_set of
-- src/modules/disk/disk.odin).
use libretro_virtualxt.Base.{
  ℕ, ◌+◌, ◌-◌, ◌*◌, ◌/◌, ◌≤◌, ◌<◌, ◌≡◌, ◌≢◌, refl, ap, ◌∙◌, arith, true, false, ◌&&◌, Bool-cases,
  inl, inr, some, IsByte, ==_ne, ==_iff, ◌==◌, if◌then◌else◌, leb, ltb, u16, bit_and,
}
use libretro_virtualxt.Bus.{Bus, IsMemory}
use libretro_virtualxt.Disk.{
  FileSystem, World, Drive, Disk, Registers, sector_size, lba, transfer_all, execute_operation,
  execute_and_set, address, drive_at,
}
use libretro_virtualxt.Disk.Image.{IsImage}
use libretro_virtualxt.Disk.Geometry.{IsPlace, lba_unique}
use libretro_virtualxt.Disk.Sectors.{IsRange}
use libretro_virtualxt.Disk.Seek.{
  sector_offset, disk_offset, execute_operation-zero, execute_and_set-zero,
}
use libretro_virtualxt.Disk.Transfer.{placed, HoldsBytes, write_all, read_all}

-- Within the range there are the bytes that were put there.
placed-inside : (p g : ℕ → ℕ) (a b n i : ℕ) → i < n → placed p a b n g (b + i) ≡ p (a + i)
placed-inside p g a b n i l =
    let here : (leb b (b + i) && ltb (b + i) (b + n)) ≡ true = ground arith in
    let same : a + (b + i - b) ≡ a + i = omega arith in rw here (ap p same)

placed-IsByte :
    (p g : ℕ → ℕ) (a b n i : ℕ)
    → ((j : ℕ) → a ≤ j → j < a + n → IsByte (p j))
    → IsByte (g i)
    → IsByte (placed p a b n g i)
placed-IsByte p g a b n i h k = elim (Bool-cases (leb b i && ltb i (b + n))) [
  | inl inside ↦ rw inside (h (a + (i - b)) (omega arith) (ground arith))
  | inr outside ↦ rw outside k
]

module _ {D F : Type 0} (bus : Bus D) (fs : FileSystem F) (Inside : ℕ → Type 0)
    (m : IsMemory bus Inside) (fp size : ℕ) (img : IsImage fs fp size) where
  write_operation :
      (drive : Drive) (addr cylinders sectors heads count : ℕ) (w : World D F)
      → img.Valid w.files
      → sectors ≢ 0
      → IsRange bus fs Inside m addr (count * sector_size)
      → HoldsBytes bus fs Inside m fp size img w.mem addr (count * sector_size)
      → img.answer (sector_offset drive cylinders sectors heads) ≡ 0
      → sector_offset drive cylinders sectors heads + count * sector_size ≤ size
      → (f : F) × (execute_operation bus fs drive fp false addr cylinders sectors heads count w
          ≡ (count, record { mem = w.mem; files = f }))
        × img.Valid f
        × ((i : ℕ)
            → img.bytes f i
              ≡ placed
                  (m.peek w.mem)
                  addr
                  (sector_offset drive cylinders sectors heads)
                  (count * sector_size)
                  (img.bytes w.files)
                  i)
  unfolding execute_operation transfer_all
  write_operation drive addr cylinders sectors heads count w open_now nz r h zero_answer fits =
      let o = sector_offset drive cylinders sectors heads in
      let (s, p, b, still0) = img.seek_pos w.files o open_now (omega (arith, fits)) in
      let f0 = (fs.seek w.files fp o).1 in
      let here : addr + 0 * sector_size ≡ addr = omega arith in
      let (f, e, still, b') =
        write_all bus fs Inside m fp size img addr count 0 (record w { files = f0 }) still0
          (rw here r) (rw here h) (omega (arith, p, fits)) in
      (
        fs.flush f fp,
        rw (execute_operation, transfer_all, ==_ne sectors 0 nz, s, zero_answer, e)
            (ap (λ n. (n, record { mem = w.mem; files = fs.flush f fp })) (omega arith)),
        (img.flush_bytes f still).1,
        λ i.
            ap (λ g. g i) (img.flush_bytes f still).0
            ∙ b' i
            ∙ ap (λ n. placed (m.peek w.mem) n (img.pos f0) (count * sector_size) (img.bytes f0) i)
                here
            ∙ ap (λ n. placed (m.peek w.mem) addr n (count * sector_size) (img.bytes f0) i) p
            ∙ ap (λ g. placed (m.peek w.mem) addr o (count * sector_size) g i) b,
      )

  read_operation :
      (drive : Drive) (addr cylinders sectors heads count : ℕ) (w : World D F)
      → img.Valid w.files
      → sectors ≢ 0
      → IsRange bus fs Inside m addr (count * sector_size)
      → ((i : ℕ) → IsByte (img.bytes w.files i))
      → img.answer (sector_offset drive cylinders sectors heads) ≡ 0
      → sector_offset drive cylinders sectors heads + count * sector_size ≤ size
      → (f : F) × (d : D) × (execute_operation bus fs drive fp true addr cylinders sectors heads
            count w
          ≡ (count, record { mem = d; files = f }))
        × (img.bytes f ≡ img.bytes w.files)
        × ((b : ℕ)
            → Inside b
            → m.peek d b
              ≡ placed
                  (img.bytes w.files)
                  (sector_offset drive cylinders sectors heads)
                  addr
                  (count * sector_size)
                  (m.peek w.mem)
                  b)
  unfolding execute_operation transfer_all
  read_operation drive addr cylinders sectors heads count w open_now nz r h zero_answer fits =
      let o = sector_offset drive cylinders sectors heads in
      let (s, p, b, still0) = img.seek_pos w.files o open_now (omega (arith, fits)) in
      let f0 = (fs.seek w.files fp o).1 in
      let here : addr + 0 * sector_size ≡ addr = omega arith in
      let (f, d, e, still, same, b') =
        read_all bus fs Inside m fp size img addr count 0 (record w { files = f0 }) still0
          (rw here r) (λ i. rw b (h i)) (omega (arith, p, fits)) in
      (
        fs.flush f fp,
        d,
        rw (execute_operation, transfer_all, ==_ne sectors 0 nz, s, zero_answer, e)
            (ap (λ n. (n, record { mem = d; files = fs.flush f fp })) (omega arith)),
        (img.flush_bytes f still).0 ∙ same ∙ b,
        λ i k.
            b' i k
            ∙ ap (λ n. placed (img.bytes f0) (img.pos f0) n (count * sector_size) (m.peek w.mem) i)
                here
            ∙ ap (λ n. placed (img.bytes f0) n addr (count * sector_size) (m.peek w.mem) i) p
            ∙ ap (λ g. placed g o addr (count * sector_size) (m.peek w.mem) i) b,
      )

  abbrev sector_count : Registers → ℕ
  sector_count r = r.al * sector_size

  execute_and_set-write :
      (disk : Disk) (r : Registers) (w : World D F)
      → img.Valid w.files
      → (drive_at disk r.dl).fp ≡ some fp
      → bit_and r.cl 0x3F ≢ 0
      → IsRange bus fs Inside m (address r.es r.bx) (sector_count r)
      → HoldsBytes bus fs Inside m fp size img w.mem (address r.es r.bx) (sector_count r)
      → img.answer (disk_offset disk r) ≡ 0
      → disk_offset disk r + sector_count r ≤ size
      → (f : F) × (execute_and_set bus fs disk false r w
          ≡ (record r { ah = 0; carry = false }, record { mem = w.mem; files = f }))
        × img.Valid f
        × ((i : ℕ)
            → img.bytes f i
              ≡ placed
                  (m.peek w.mem)
                  (address r.es r.bx)
                  (disk_offset disk r)
                  (sector_count r)
                  (img.bytes w.files)
                  i)
  unfolding execute_and_set
  execute_and_set-write disk r w open_now e nz range h zero_answer fits =
      let (f, q, still, b) =
        write_operation (drive_at disk r.dl) (address r.es r.bx) (u16 (r.ch + r.cl / 64 * 256))
          (bit_and r.cl 0x3F) r.dh r.al w open_now nz range h zero_answer fits in
      (f, rw (execute_and_set, e, q) refl, still, b)

  execute_and_set-read :
      (disk : Disk) (r : Registers) (w : World D F)
      → img.Valid w.files
      → (drive_at disk r.dl).fp ≡ some fp
      → bit_and r.cl 0x3F ≢ 0
      → IsRange bus fs Inside m (address r.es r.bx) (sector_count r)
      → ((i : ℕ) → IsByte (img.bytes w.files i))
      → img.answer (disk_offset disk r) ≡ 0
      → disk_offset disk r + sector_count r ≤ size
      → (f : F) × (d : D) × (execute_and_set bus fs disk true r w
          ≡ (record r { ah = 0; carry = false }, record { mem = d; files = f }))
        × (img.bytes f ≡ img.bytes w.files)
        × ((b : ℕ)
            → Inside b
            → m.peek d b
              ≡ placed
                  (img.bytes w.files)
                  (disk_offset disk r)
                  (address r.es r.bx)
                  (sector_count r)
                  (m.peek w.mem)
                  b)
  unfolding execute_and_set
  execute_and_set-read disk r w open_now e nz range h zero_answer fits =
      let (f, d, q, same, b) =
        read_operation (drive_at disk r.dl) (address r.es r.bx) (u16 (r.ch + r.cl / 64 * 256))
          (bit_and r.cl 0x3F) r.dh r.al w open_now nz range h zero_answer fits in
      (f, d, rw (execute_and_set, e, q) refl, same, b)

module _ {D F : Type 0} (bus : Bus D) (fs : FileSystem F) (Inside : ℕ → Type 0)
    (m : IsMemory bus Inside) (fp size : ℕ) (img : IsImage fs fp size) where
  -- Functions 3 and 2 of the disk interrupt, on an open and writable image on which a seek within
  -- the image sets the position and returns any number that depends on it, and reads and writes
  -- within it are complete: if the sector number is not 0, the sectors that the registers name
  -- are within the image of the drive, the two ranges of addresses are memory and do not wrap,
  -- and image and memory hold bytes, then writing the sectors from one address and reading them
  -- to another leaves the status 0 and no carry. If the seek to the sectors returns 0, as the one
  -- of the Raspberry Pi does, all sectors are transferred, and the bytes at the second address
  -- are those that stood at the first. If it returns another number, as it does on a frontend
  -- that returns the new position, like libretro.h documents, unless that is 0, the number of
  -- sectors becomes 0, and the memory at the second address stays.
  pub write-read :
      (disk : Disk) (r : Registers) (es bx i : ℕ) (w : World D F)
      → img.Valid w.files
      → i < r.al * sector_size
      → (drive_at disk r.dl).fp ≡ some fp
      → bit_and r.cl 0x3F ≢ 0
      → disk_offset disk r + r.al * sector_size ≤ size
      → ((j : ℕ) → IsByte (img.bytes w.files j))
      → IsRange bus fs Inside m (address r.es r.bx) (r.al * sector_size)
      → HoldsBytes bus fs Inside m fp size img w.mem (address r.es r.bx) (r.al * sector_size)
      → IsRange bus fs Inside m (address es bx) (r.al * sector_size)
      → (let reached = img.answer (disk_offset disk r) == 0 in
          let (r1, w1) = execute_and_set bus fs disk false r w in
          let (r2, w2) = execute_and_set bus fs disk true (record r1 { es = es; bx = bx }) w1 in
          (r2 ≡ record r {
            al = if reached then r.al else 0;
            ah = 0;
            carry = false;
            es = es;
            bx = bx;
          })
          × (m.peek w2.mem (address es bx + i) ≡ (
              if reached
              then m.peek w.mem (address r.es r.bx + i)
              else m.peek w.mem (address es bx + i))))
  write-read disk r es bx i w open_now l e nz fits b range h range' =
      let n = r.al * sector_size in
      let o = disk_offset disk r in
      let a = address r.es r.bx in
      elim (Bool-cases (img.answer o == 0)) [
        | inl reached ↦
            let zero_answer : img.answer o ≡ 0 = (==_iff (img.answer o) 0).0 reached in
            let (f, q, still, put) =
              execute_and_set-write bus fs Inside m fp size img disk r w open_now e nz range h
                zero_answer fits in
            let (f', d, q', same, got) =
              execute_and_set-read bus fs Inside m fp size img disk
                (record r { ah = 0; carry = false; es = es; bx = bx }) (record w { files = f })
                still e nz range'
                (λ j. rw (put j) (placed-IsByte (m.peek w.mem) (img.bytes w.files) a o n j h (b j)))
                zero_answer fits in
            rw (reached, q, q')
              (
                refl,
                got (address es bx + i)
                      (range'.1 (address es bx + i) (omega arith) (omega (arith, l)))
                    ∙ placed-inside (img.bytes f) (m.peek w.mem) o (address es bx) n i l
                    ∙ put (o + i)
                    ∙ placed-inside (m.peek w.mem) (img.bytes w.files) a o n i l,
              )
        | inr unreached ↦
            let other : img.answer o ≢ 0 = λ z. ground (arith, unreached, z) in
            let q =
              execute_and_set-zero bus fs fp size img disk false r w open_now e nz
                (omega (arith, fits)) other in
            let q' =
              execute_and_set-zero bus fs fp size img disk true
                (record r { al = 0; ah = 0; carry = false; es = es; bx = bx })
                (record w { files = (fs.seek w.files fp o).1 })
                (img.seek_pos w.files o open_now (omega (arith, fits))).3 e nz (omega (arith, fits))
                other in
            rw (unreached, q, q') (refl, refl)
      ]

  -- On an open and writable image on which a seek within the image sets the position and returns
  -- any number that depends on it, and writes within it are complete, writing a sector, from
  -- memory that does not wrap and holds bytes, to one place of the drive, within the image,
  -- changes no byte of the sector of any other cylinder, head and sector of the drive, whether
  -- the seek returns 0 or the write is given up.
  pub write_operation-other :
      (drive : Drive) (addr c s h c' s' h' i : ℕ) (w : World D F)
      → img.Valid w.files
      → IsPlace drive c s h
      → IsPlace drive c' s' h'
      → ¬ ((c ≡ c') × (s ≡ s') × (h ≡ h'))
      → i < sector_size
      → lba drive c s h * sector_size + sector_size ≤ size
      → IsRange bus fs Inside m addr sector_size
      → HoldsBytes bus fs Inside m fp size img w.mem addr sector_size
      → img.bytes
          (execute_operation bus fs drive fp false addr c s h 1 w).1.files
          (lba drive c' s' h' * sector_size + i)
        ≡ img.bytes w.files (lba drive c' s' h' * sector_size + i)
  write_operation-other drive addr c s h c' s' h' i w open_now p q ne l fits r b =
      let o = lba drive c s h in
      let o' = lba drive c' s' h' in
      let at = o' * sector_size + i in
      let nz : s ≢ 0 = λ z. omega (arith, z, p.1) in
      elim (Bool-cases (img.answer (o * sector_size) == 0)) [
        | inl reached ↦
            let (f, e, still, put) =
              write_operation bus fs Inside m fp size img drive addr c s h 1 w open_now nz r b
                ((==_iff (img.answer (o * sector_size)) 0).0 reached) fits in
            let apart : o ≢ o' = λ same. ne (lba_unique drive c s h c' s' h' p q same) in
            let outside : (leb (o * sector_size) at && ltb at (o * sector_size + 1 * sector_size))
                ≡ false =
              ground (arith, apart, l) in
            rw e (put at ∙ rw outside refl)
        | inr unreached ↦
            rw
              (execute_operation-zero bus fs fp size img drive false addr c s h 1 w open_now nz
                (omega (arith, fits)) (λ z. ground (arith, unreached, z)))
              (ap (λ g. g at)
                (img.seek_pos w.files (o * sector_size) open_now (omega (arith, fits))).2)
      ]
