-- ===== src/Disk/Unmount.antt =====
-- A floppy that is mounted and taken out (config of src/modules/disk/disk.odin).
use libretro_virtualxt.Base.{
  ℕ, zero, suc, ◌+◌, ◌%◌, ◌≤◌, ◌<◌, ◌≡◌, refl, ap, sym, ◌∙◌, Option, arith, true, false, some, List,
  [], ◌∷◌, length, get_or, get_or-set_self, set, leb, u8, sub8,
}
use libretro_virtualxt.Disk.{FileSystem, Disk, no_drive, drive_at, sector_size}
use libretro_virtualxt.Disk.Mount.{geometry, mount_disk, Setting, config, unmount, Answer}

module _ {A : Type 0} where
  set-set_get : (xs : List A) (i : ℕ) (v d : A) → set (set xs i v) i (get_or xs i d) ≡ xs
  set-set_get [] i v d = refl
  set-set_get (x ∷ xs) zero v d = refl
  set-set_get (x ∷ xs) (suc i) v d = ap (λ t. x ∷ t) (set-set_get xs i v d)

geometry-fp : (fp : Option ℕ) (size : ℕ) → (geometry fp size).fp ≡ fp
unfolding geometry
geometry-fp fp size = ground arith

module _ {F : Type 0} (fs : FileSystem F) where
  -- What `config` answers to a message that it takes.
  abbrev pub done : Disk → F → Answer F
  done disk f = record { taken = true; status = 0; disk = disk; files = f }

  -- With at most one floppy mounted and drive A empty, mounting an image of a floppy of whole
  -- sectors in A succeeds, and unmounting it closes its file and gives the drives back as they
  -- were.
  pub config-umount :
      (disk : Disk) (fp size : ℕ) (f : F)
      → 1 ≤ length disk.drives
      → drive_at disk 0 ≡ no_drive
      → disk.num_fd < 2
      → (geometry (some fp) size).is_hd ≡ false
      → size % sector_size ≡ 0
      → (disk' : Disk) × (config fs (Setting.mount_a fp size) disk f ≡ some (done disk' f))
        × (config fs (Setting.umount 0) disk' f ≡ some (done disk (fs.close f fp)))
  unfolding config mount_disk unmount
  config-umount disk fp size f l free room floppy whole =
      let more : u8 (disk.num_fd + 1) ≡ disk.num_fd + 1 = omega (arith, room) in
      let two : leb (disk.num_fd + 1) 2 ≡ true = ground (arith, room) in
      let less : sub8 (disk.num_fd + 1) 1 ≡ disk.num_fd = omega (arith, room) in
      let drive = geometry (some fp) size in
      (
        record disk { num_fd = disk.num_fd + 1; drives = set disk.drives 0 drive },
        rw (config, mount_disk, floppy, free, whole, more, two) refl,
        rw
            (
              config,
              unmount,
              get_or-set_self disk.drives 0 drive no_drive l,
              geometry-fp (some fp) size,
              less,
              ap (λ v. set (set disk.drives 0 drive) 0 v) (sym free)
                  ∙ set-set_get disk.drives 0 drive no_drive,
            )
            refl,
      )
