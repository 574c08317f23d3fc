-- ===== src/Disk/Mount.antt =====
-- The images of the disk controller (mount_disk, config and destroy of
-- src/modules/disk/disk.odin).
use libretro_virtualxt.Base.{
  ℕ, ◌+◌, ◌*◌, ◌/◌, ◌%◌, Bool, true, false, ◌&&◌, ◌||◌, not, Option, none, some, List, [], ◌∷◌,
  ◌==◌, if◌then◌else◌, leb, ltb, set, u8, u16, sub8,
}
use libretro_virtualxt.Disk.{FileSystem, Drive, Disk, no_drive, drive_at, sector_size}
use libretro_virtualxt.Machine.{Manager, register_io_address_range}

-- The geometry of an image of a size, with whether it is a hard disk, in `mount_disk`.
unfoldable pub geometry : Option ℕ → ℕ → Drive
geometry fp size =
    let shape = λ (cylinders sectors heads : ℕ) (is_hd : Bool). record no_drive {
      fp = fp;
      size = size;
      is_hd = is_hd;
      cylinders = cylinders;
      sectors = sectors;
      heads = heads;
    } in
    if size == 512 || size == 163840
    then shape 40 8 1 false
    else if size == 368640
    then shape 40 9 2 false
    else if size == 737280
    then shape 80 9 2 false
    else if size == 1228800
    then shape 80 15 2 false
    else if size == 1474560
    then shape 80 18 2 false
    else shape (u16 (size / (63 * 16 * sector_size))) 63 16 true

-- `mount_disk` of an image that was opened: none if an assertion fails.
unfoldable pub mount_disk : Disk → ℕ → ℕ → ℕ → Option Disk
unfolding geometry
mount_disk disk disk_num fp size =
    let drive = geometry (some fp) size in
    let num =
      if disk_num == 0xFF
      then if drive.is_hd then u8 (disk.num_hd + 0x80) else disk.num_fd
      else disk_num in
    let num_hd = if drive.is_hd then u8 (disk.num_hd + 1) else disk.num_hd in
    let num_fd = if drive.is_hd then disk.num_fd else u8 (disk.num_fd + 1) in
    let free : Bool = elim (drive_at disk num).fp [ none ↦ true | some p ↦ false ] in
    if leb num_fd 2
      && free
      && (size % sector_size == 0)
      && ((drive.is_hd && leb 0x80 num) || (not drive.is_hd && ltb num 0x80))
    then some (record disk { num_hd = num_hd; num_fd = num_fd; drives = set disk.drives num drive })
    else none

-- The messages of `config` with their values. `boot_text` has the number that its text stands for,
-- and an image is the file that was opened with its size.
pub data Setting : Type 0 where
  mounted : ℕ → Setting
  umount : ℕ → Setting
  boot : ℕ → Setting
  boot_text : Option ℕ → Setting
  auto : ℕ → ℕ → Setting
  mount_a : ℕ → ℕ → Setting
  mount_c : ℕ → ℕ → Setting
  other : Setting

-- What `config` returns, and the byte that `mounted` writes.
pub record Answer (F : Type 0) : Type 0 where
  pub taken : Bool
  pub status : ℕ
  pub disk : Disk
  pub files : F

module _ {F : Type 0} (fs : FileSystem F) where
  -- The message `umount`, for a drive that is no hard disk.
  unfoldable pub unmount : Disk → ℕ → F → Disk × F
  unmount disk num f = elim (drive_at disk num).fp [
    | none ↦ (disk, f)
    | some fp ↦ (
      record disk { drives = set disk.drives num no_drive; num_fd = sub8 disk.num_fd 1 },
      fs.close f fp,
    )
  ]

  -- The answer to an image that was mounted, if no assertion failed.
  abbrev answer : F → Option Disk → Option (Answer F)
  answer f none = none
  answer f (some disk) = some (record { taken = true; status = 0; disk = disk; files = f })

  -- `config` of a message for the disk: none if an assertion fails.
  unfoldable pub config : Setting → Disk → F → Option (Answer F)
  unfolding unmount mount_disk
  config (mounted num) disk f = some (record {
    taken = true;
    status = elim (drive_at disk num).fp [ none ↦ 0 | some fp ↦ 1 ];
    disk = disk;
    files = f;
  })
  config (umount num) disk f =
      let (disk', f') = unmount disk num f in
      if leb 0x80 num
      then some (record { taken = false; status = 0; disk = disk; files = f })
      else some (record { taken = true; status = 0; disk = disk'; files = f' })
  config (boot num) disk f =
      some (record { taken = true; status = 0; disk = record disk { boot_drive = num }; files = f })
  config (boot_text none) disk f =
      some (record { taken = false; status = 0; disk = disk; files = f })
  config (boot_text (some num)) disk f =
      some
        (record { taken = true; status = 0; disk = record disk { boot_drive = u8 num }; files = f })
  config (auto fp size) disk f = answer f (mount_disk disk 0xFF fp size)
  config (mount_a fp size) disk f = answer f (mount_disk disk 0 fp size)
  config (mount_c fp size) disk f = answer f (mount_disk disk 0x80 fp size)
  config other disk f = some (record { taken = false; status = 0; disk = disk; files = f })

  -- `destroy`.
  unfoldable destroy : List Drive → F → F
  destroy [] f = f
  destroy (drive ∷ drives) f = destroy drives (elim drive.fp [ none ↦ f | some fp ↦ fs.close f fp ])

-- `install`: the two ports of the controller.
abbrev pub install : {S : Type 0} → Manager S → ℕ → Manager S
install m pidx = register_io_address_range m pidx 0xB0 0xB1
