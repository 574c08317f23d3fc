-- ===== src/Disk/Seek.antt =====
-- An operation that ends at the seek (execute_operation of src/modules/disk/disk.odin).
use libretro_virtualxt.Base.{
  ℕ, ◌*◌, ◌≤◌, ◌≡◌, ◌≢◌, refl, Bool, false, some, ==_ne, u16, bit_and, ◌+◌, ◌/◌,
}
use libretro_virtualxt.Bus.{Bus}
use libretro_virtualxt.Disk.{
  FileSystem, World, Drive, Disk, Registers, sector_size, lba, execute_operation, execute_and_set,
  drive_at, address,
}
use libretro_virtualxt.Disk.Image.{IsImage}

-- Where the sectors of an operation stand in the image.
abbrev pub sector_offset : Drive → ℕ → ℕ → ℕ → ℕ
sector_offset drive cylinders sectors heads = lba drive cylinders sectors heads * sector_size

-- Where the registers of a call say that its sectors stand.
abbrev pub disk_offset : Disk → Registers → ℕ
disk_offset disk r =
    sector_offset (drive_at disk r.dl) (u16 (r.ch + r.cl / 64 * 256)) (bit_and r.cl 0x3F) r.dh

module _ {D F : Type 0} (bus : Bus D) (fs : FileSystem F) (fp size : ℕ)
    (img : IsImage fs fp size) where
  -- A seek that does not return 0 is taken for failed, and no sector is transferred.
  pub execute_operation-zero :
      (drive : Drive) (read : Bool) (addr cylinders sectors heads count : ℕ) (w : World D F)
      → img.Valid w.files
      → sectors ≢ 0
      → sector_offset drive cylinders sectors heads ≤ size
      → img.answer (sector_offset drive cylinders sectors heads) ≢ 0
      → execute_operation bus fs drive fp read addr cylinders sectors heads count w ≡ (
        0,
        record w { files = (fs.seek w.files fp (sector_offset drive cylinders sectors heads)).1 },
      )
  unfolding execute_operation
  execute_operation-zero drive read addr cylinders sectors heads count w open_now nz inside other =
      let o = sector_offset drive cylinders sectors heads in
      rw
        (
          execute_operation,
          ==_ne sectors 0 nz,
          (img.seek_pos w.files o open_now inside).0,
          ==_ne (img.answer o) 0 other,
        )
        refl

  pub execute_and_set-zero :
      (disk : Disk) (read : Bool) (r : Registers) (w : World D F)
      → img.Valid w.files
      → (drive_at disk r.dl).fp ≡ some fp
      → bit_and r.cl 0x3F ≢ 0
      → disk_offset disk r ≤ size
      → img.answer (disk_offset disk r) ≢ 0
      → execute_and_set bus fs disk read r w ≡ (
        record r { al = 0; ah = 0; carry = false },
        record w { files = (fs.seek w.files fp (disk_offset disk r)).1 },
      )
  unfolding execute_and_set
  execute_and_set-zero disk read r w open_now e nz inside other =
      rw
        (
          execute_and_set,
          e,
          execute_operation-zero (drive_at disk r.dl) read (address r.es r.bx)
              (u16 (r.ch + r.cl / 64 * 256)) (bit_and r.cl 0x3F) r.dh r.al w open_now nz inside
              other,
        )
        refl
