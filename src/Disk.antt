-- ===== src/Disk.antt =====
-- The disk controller, src/modules/disk/disk.odin: the drives, the transfer of sectors between
-- their image files and memory, the functions of interrupt 0x13, and the mounting of images. The
-- file system that the frontend gives is a parameter; memory is reached over the bus. Waiting and
-- the log have no effect that the program sees.
pub mod Image
pub mod Sectors
pub mod Transfer
pub mod Seek
pub mod Commands
pub mod OnCircle
pub mod Mount
pub mod Unmount
pub mod Geometry
pub mod Parameters
pub mod Status
mod Tests
use libretro_virtualxt.Base.{
  ℕ, zero, suc, ◌+◌, ◌-◌, ◌*◌, ◌/◌, ◌%◌, Bool, true, false, ◌&&◌, ◌||◌, not, Option, none, some,
  List, [], ◌∷◌, length, ◌==◌, if◌then◌else◌, leb, ltb, get_or, set, u8, u16, u32, sub8, sub16,
  bit_and, bit_or, ◌>>>◌,
}
use libretro_virtualxt.Bus.{Bus}

abbrev pub sector_size : ℕ
sector_size = 512

abbrev bootsector_address : ℕ
bootsector_address = 0x7C00

-- The functions of the frontend on files, `retro_callbacks.vfs`, with the state `F` of all files;
-- a file is a number. `seek` is from the start of the file; it gives the number that it returns,
-- or none for a negative one. `read` gives what was read, and `write` how much was written.
pub record FileSystem (F : Type 0) : Type 0 where
  pub seek : F → ℕ → ℕ → Option ℕ × F
  pub read : F → ℕ → ℕ → List ℕ × F
  pub write : F → ℕ → List ℕ → ℕ × F
  pub flush : F → ℕ → F
  pub close : F → ℕ → F

-- `Drive`; `fp` is none for nil.
pub record Drive : Type 0 where
  pub fp : Option ℕ
  pub size : ℕ
  pub is_hd : Bool
  pub cylinders : ℕ
  pub sectors : ℕ
  pub heads : ℕ
  pub status : ℕ
  pub error : Bool

-- `Disk`.
pub record Disk : Type 0 where
  pub boot_drive : ℕ
  pub num_hd : ℕ
  pub num_fd : ℕ
  pub drives : List Drive

abbrev pub no_drive : Drive
no_drive = record {
  fp = none;
  size = 0;
  is_hd = false;
  cylinders = 0;
  sectors = 0;
  heads = 0;
  status = 0;
  error = false;
}

abbrev pub drive_at : Disk → ℕ → Drive
drive_at disk n = get_or disk.drives n no_drive

-- The registers of the processor that the controller uses.
pub record Registers : Type 0 where
  pub al : ℕ
  pub ah : ℕ
  pub bx : ℕ
  pub cl : ℕ
  pub ch : ℕ
  pub dl : ℕ
  pub dh : ℕ
  pub es : ℕ
  pub carry : Bool

-- The devices behind the bus, and the files.
pub record World (D F : Type 0) : Type 0 where
  pub mem : D
  pub files : F

-- `lba` of a sector; the sector is not 0.
abbrev pub lba : Drive → ℕ → ℕ → ℕ → ℕ
lba drive cylinders sectors heads = (cylinders * drive.heads + heads) * drive.sectors + sectors - 1

-- Whether a seek returned 0.
abbrev pub is_zero : Option ℕ → Bool
is_zero none = false
is_zero (some n) = n == 0

-- `peripheral.address`.
abbrev pub address : ℕ → ℕ → ℕ
address segment offset = u32 (segment * 0x10 + offset)

-- The function 8 of `io_out`, the drive's parameters.
unfoldable pub parameters : Disk → Registers → Registers
parameters disk r =
    let drive = drive_at disk r.dl in
    elim drive.fp [
      | none ↦ record r { ah = 0xAA; carry = true }
      | some fp ↦ record r {
        al = 0;
        ah = 0;
        carry = false;
        ch = u8 (bit_and (sub16 drive.cylinders 1) 0xFF);
        cl =
            u8 (bit_or (bit_and (sub16 drive.cylinders 1 >>> 2) 0xC0) (bit_and drive.sectors 0x3F));
        dh = u8 (sub16 drive.heads 1);
        bx = if ltb r.dl 0x80 then r.bx / 256 * 256 + 4 else r.bx;
        dl = if ltb r.dl 0x80 then 2 else disk.num_hd;
      }
    ]

module _ {D F : Type 0} (bus : Bus D) (fs : FileSystem F) where
  -- `for data in buffer { write(offset, data); offset += 1 }`
  unfoldable pub store_bytes : D → ℕ → List ℕ → D
  store_bytes d offset [] = d
  store_bytes d offset (b ∷ bs) = store_bytes (bus.write d offset b) (u32 (offset + 1)) bs

  -- `for &data in buffer { data = read(offset); offset += 1 }`
  unfoldable pub load_bytes : D → ℕ → ℕ → List ℕ × D
  load_bytes d offset zero = ([], d)
  load_bytes d offset (suc n) =
      let (b, d') = bus.read d offset in
      let (bs, d'') = load_bytes d' (u32 (offset + 1)) n in (u8 b ∷ bs, d'')

  -- One turn of the loop that reads: whether the file gave a sector.
  unfoldable pub read_sector : ℕ → ℕ → World D F → Bool × World D F
  read_sector fp offset w =
      let (bytes, f) = fs.read w.files fp sector_size in
      if length bytes == sector_size
      then (true, record { mem = store_bytes w.mem offset bytes; files = f })
      else (false, record w { files = f })

  -- One turn of the loop that writes: whether the file took the sector.
  unfoldable pub write_sector : ℕ → ℕ → World D F → Bool × World D F
  write_sector fp offset w =
      let (bytes, d) = load_bytes w.mem offset sector_size in
      let (n, f) = fs.write w.files fp bytes in (n == sector_size, record { mem = d; files = f })

  -- The loop over the sectors, with `left` to go after `num`; the result is the number that was
  -- transferred.
  unfoldable pub transfer : Bool → ℕ → ℕ → ℕ → ℕ → World D F → ℕ × World D F
  transfer read fp addr zero num w = (num, w)
  transfer read fp addr (suc left) num w =
      let offset = u32 (addr + num * sector_size) in
      let (ok, w') = if read then read_sector fp offset w else write_sector fp offset w in
      let rest = transfer read fp addr left (num + 1) w' in if ok then rest else (num, w')

  -- The part of `execute_operation` after the seek; the file is flushed in the end.
  unfoldable pub transfer_all : Bool → ℕ → ℕ → ℕ → World D F → ℕ × World D F
  transfer_all read fp addr count w =
      let (num, w') = transfer read fp addr count 0 w in
      (num, record w' { files = fs.flush w'.files fp })

  -- `execute_operation`.
  unfoldable pub execute_operation :
      Drive → ℕ → Bool → ℕ → ℕ → ℕ → ℕ → ℕ → World D F → ℕ × World D F
  execute_operation drive fp read addr cylinders sectors heads count w =
      let (answer, f) = fs.seek w.files fp (lba drive cylinders sectors heads * sector_size) in
      let ok = is_zero answer in
      let w' = record w { files = f } in
      if sectors == 0 then (0, w) else if ok then transfer_all read fp addr count w' else (0, w')

  -- `execute_and_set`.
  unfoldable pub execute_and_set : Disk → Bool → Registers → World D F → Registers × World D F
  execute_and_set disk read r w =
      let drive = drive_at disk r.dl in
      elim drive.fp [
        | none ↦ (record r { ah = 1; carry = true }, w)
        | some fp ↦
            let (num, w') =
              execute_operation drive fp read (address r.es r.bx) (u16 (r.ch + r.cl / 64 * 256))
                (bit_and r.cl 0x3F) r.dh r.al w in
            (record r { al = num; ah = 0; carry = false }, w')
      ]

  -- `bootstrap`.
  unfoldable bootstrap : Disk → Registers → World D F → Registers × World D F
  bootstrap disk r w =
      let drive = drive_at disk disk.boot_drive in
      elim drive.fp [
        | none ↦ (record r { carry = true }, w)
        | some fp ↦
            let (num, w') = execute_operation drive fp true bootsector_address 0 1 0 1 w in
            (record r { dl = disk.boot_drive; al = num; carry = false }, w')
      ]

  -- The functions of `io_out` but 1.
  unfoldable pub operation : Disk → Registers → World D F → Registers × World D F
  unfolding execute_and_set parameters
  operation disk r w =
      if r.ah == 0
      then (record r { ah = 0; carry = false }, w)
      else if r.ah == 2
      then execute_and_set disk true r w
      else if r.ah == 3
      then execute_and_set disk false r w
      else if leb 4 r.ah && leb r.ah 7
      then (record r { ah = 0; carry = false }, w)
      else if r.ah == 8
      then (parameters disk r, w)
      else if r.ah == 0x18
      then (record r { ah = 1; carry = true }, w)
      else (record r { carry = true }, w)

  -- `io_out`. The drive is the one that `dl` names at the start.
  unfoldable pub io_out : ℕ → Disk → Registers → World D F → Disk × Registers × World D F
  unfolding bootstrap operation
  io_out port disk r w =
      let drive = drive_at disk r.dl in
      if port == 0xB0
      then (let (r', w') = bootstrap disk r w in (disk, r', w'))
      else if r.ah == 1
      then (disk, record r { ah = drive.status; carry = drive.error }, w)
      else let (r', w') = operation disk r w in
        let drive' = record drive { status = r'.ah; error = r'.carry } in
        (
          record disk { drives = set disk.drives r.dl drive' },
          r',
          if drive.is_hd
              then record w' { mem = bus.write w'.mem (address 0x40 0x74) r'.ah }
              else w',
        )

-- `io_in`, at the two ports that are registered.
unfoldable pub io_in : ℕ → Disk → Registers → ℕ
io_in port disk r =
    if port == 0xB0
    then if leb 0x80 disk.boot_drive then 0 else 0xFF
    else elim (drive_at disk r.dl).fp [ none ↦ 0xFF | some fp ↦ 0 ]

-- `reset`.
abbrev reset_drives : List Drive → List Drive
reset_drives [] = []
reset_drives (d ∷ ds) = record d { status = 0; error = false } ∷ reset_drives ds

unfoldable pub reset : Disk → Disk
reset disk = record disk { drives = reset_drives disk.drives }
