-- ===== src/Disk/Status.antt =====
-- The status of the last call (io_out in src/modules/disk/disk.odin).
use libretro_virtualxt.Base.{ℕ, ◌<◌, ◌≡◌, ◌≢◌, refl, length, ==_ne, get_or-set_self}
use libretro_virtualxt.Bus.{Bus}
use libretro_virtualxt.Disk.{
  Disk, Registers, World, FileSystem, drive_at, no_drive, io_out, operation,
}

module _ {D F : Type 0} (bus : Bus D) (fs : FileSystem F) where
  -- After any function of interrupt 0x13 but 1, whatever it returned and whatever the files did,
  -- function 1 on the drive that the call began with returns the same status and carry, and
  -- changes nothing else.
  pub io_out-status :
      (port : ℕ) (disk : Disk) (r q : Registers) (w w' : World D F)
      → port ≢ 0xB0
      → r.ah ≢ 1
      → r.dl < length disk.drives
      → q.ah ≡ 1
      → q.dl ≡ r.dl
      → (let (disk', r', w1) = io_out bus fs port disk r w in
          io_out bus fs port disk' q w' ≡ (disk', record q { ah = r'.ah; carry = r'.carry }, w'))
  unfolding io_out
  io_out-status port disk r q w w' p a l b e =
      let drive = drive_at disk r.dl in
      let (r', w1) = operation bus fs disk r w in
      rw
        (
          io_out,
          ==_ne port 0xB0 p,
          ==_ne r.ah 1 a,
          b,
          e,
          get_or-set_self disk.drives r.dl (record drive { status = r'.ah; error = r'.carry })
              no_drive l,
        )
        refl
