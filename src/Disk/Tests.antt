-- ===== src/Disk/Tests.antt =====
-- The disk controller at concrete inputs.
use libretro_virtualxt.Base.{
  ℕ, ◌+◌, ◌*◌, ◌/◌, ◌≤◌, ◌<◌, ◌≡◌, refl, ap, set, replicate, ◌==◌, ◌-◌, arith, true, false, some,
  [], ◌∷◌, length, IsByte, u16, bit_and,
}
use libretro_virtualxt.Bus.{Bus, IsMemory}
use libretro_virtualxt.Machine.{Manager, bus_of}
use libretro_virtualxt.Machine.MainMemory.{Devices, default_peripheral}
use libretro_virtualxt.Machine.MainMemory.Laws.{IsPlain, main_memory-IsMemory, main_memory-peek}
use libretro_virtualxt.Disk.{
  FileSystem, World, Drive, Disk, Registers, sector_size, lba, execute_operation, execute_and_set,
  no_drive, parameters, io_out,
}
use libretro_virtualxt.Disk.Mount.{geometry, mount_disk, config, Setting}
use libretro_virtualxt.Disk.Unmount.{config-umount, done}
use libretro_virtualxt.Disk.Image.{IsImage, bytes_from, with_bytes}
use libretro_virtualxt.Disk.Commands.{write-read, write_operation-other}
use libretro_virtualxt.Circle.Vfs.{FatFs, Files, num_handles}
use libretro_virtualxt.Disk.OnCircle.{file_system, FatFile, write-read_back}
use libretro_virtualxt.Disk.Seek.{execute_and_set-zero}
use libretro_virtualxt.Disk.Geometry.{lba-room}
use libretro_virtualxt.Disk.Parameters.{parameters-place}
use libretro_virtualxt.Disk.Status.{io_out-status}

-- A machine that has nothing but its main memory.
abbrev manager : Manager (Devices Unit)
manager = record { peripherals = default_peripheral ∷ []; memory_map = λ a. 0; io_map = λ a. 0 }

abbrev bus : Bus (Devices Unit)
bus = bus_of manager

abbrev memory : IsMemory bus (IsPlain manager)
memory = main_memory-IsMemory manager refl

-- A file system with one file, which can be written everywhere.
record File : Type 0 where
  content : ℕ → ℕ
  position : ℕ

abbrev one_file : FileSystem File
one_file = record {
  seek = λ f fp o. (some 0, record f { position = o });
  read = λ f fp n. (bytes_from f.content f.position n, record f { position = f.position + n });
  write = λ f fp bs. (
    length bs,
    record { content = with_bytes f.content f.position bs; position = f.position + length bs },
  );
  flush = λ f fp. f;
  close = λ f fp. f;
}

abbrev image : IsImage one_file 7 368640
image = record {
  Valid = λ f. Unit;
  bytes = λ f. f.content;
  pos = λ f. f.position;
  answer = λ o. 0;
  seek_pos = λ f o v l. (refl, refl, refl, tt);
  read_bytes = λ f n v l. (refl, refl, refl, tt);
  write_bytes = λ f bs v l. (refl, refl, refl, tt);
  flush_bytes = λ f v. (refl, tt);
}

-- A file system that returns the new position, as libretro.h documents.
abbrev by_position : FileSystem File
by_position = record one_file { seek = λ f fp o. (some o, record f { position = o }) }

abbrev position_image : IsImage by_position 7 368640
position_image = record {
  Valid = image.Valid;
  bytes = image.bytes;
  pos = image.pos;
  answer = λ o. o;
  seek_pos = λ f o v l. (refl, refl, refl, tt);
  read_bytes = image.read_bytes;
  write_bytes = image.write_bytes;
  flush_bytes = image.flush_bytes;
}

-- A floppy of 360 KB in drive A.
abbrev floppy : Drive
floppy = record {
  fp = some 7;
  size = 368640;
  is_hd = false;
  cylinders = 40;
  sectors = 9;
  heads = 2;
  status = 0;
  error = false;
}

abbrev disk : Disk
disk = record { boot_drive = 0; num_hd = 0; num_fd = 1; drives = floppy ∷ [] }

abbrev empty : Disk
empty = record disk { num_fd = 0; drives = no_drive ∷ [] }

mounted : mount_disk empty 0xFF 7 368640 ≡ some disk
unfolding mount_disk geometry
mounted = refl

-- Two sectors of cylinder 3 and head 1, from 1000:0010.
abbrev registers : Registers
registers = record {
  al = 2;
  ah = 3;
  bx = 0x10;
  cl = 5;
  ch = 3;
  dl = 0;
  dh = 1;
  es = 0x1000;
  carry = false;
}

abbrev world : World (Devices Unit) File
world = record {
  mem = record { memory = λ a. 0x55; others = tt };
  files = record { content = λ i. 0; position = 0 };
}

world-HoldsBytes : (i : ℕ) → 0x10010 ≤ i → i < 0x10410 → IsByte (memory.peek world.mem i)
world-HoldsBytes i l u = rw (main_memory-peek manager refl world.mem i) (omega arith)

write-read_example :
    let (r1, w1) = execute_and_set bus one_file disk false registers world in
    let (r2, w2) = execute_and_set bus one_file disk true (record r1 { es = 0x2000; bx = 0 }) w1 in
    (r2 ≡ record registers { ah = 0; carry = false; es = 0x2000; bx = 0 })
    × (memory.peek w2.mem (0x20000 + 700) ≡ memory.peek world.mem (0x10010 + 700))
write-read_example =
    write-read bus one_file (IsPlain manager) memory 7 368640 image disk registers 0x2000 0 700
      world tt (omega arith) refl (omega arith) (omega arith) (λ i. omega arith)
      (omega arith, λ i l u. (omega arith, refl)) world-HoldsBytes
      (omega arith, λ i l u. (omega arith, refl))

-- A FatFs with one file: an object that is not blank has its position, with one added.
abbrev fat : FatFs
fat = record {
  Fil = ℕ;
  Disk = ℕ → ℕ;
  blank = 0;
  is_blank = λ f. f == 0;
  fa_read = 1;
  fa_write = 2;
  fa_open_existing = 0;
  f_open = λ d f path mode. (true, 1, d);
  f_close = λ d f. d;
  f_sync = λ d f. (f, d);
  f_size = λ f. 368640;
  f_read = λ d f n. (true, bytes_from d (f - 1) n, f + n, d);
  f_write = λ d f bs. (true, length bs, f + length bs, with_bytes d (f - 1) bs);
  f_lseek = λ d f o. (true, o + 1, d);
}

fat_file : FatFile fat 368640
fat_file = record {
  small = omega arith;
  IsOpen = λ d f. 1 ≤ f;
  content = λ d f. d;
  place = λ d f. f - 1;
  after_lseek = λ d f o v l. (refl, omega arith, refl, omega arith);
  after_read = λ d f n v l. (refl, refl, omega (arith, v), refl, omega (arith, v));
  after_write = λ d f bs v l. (refl, refl, omega (arith, v), refl, omega (arith, v));
  after_sync = λ d f v. (refl, v);
}

-- The same two calls on the Raspberry Pi, with the image in handle 7.
abbrev pi_world : World (Devices Unit) (Files fat)
pi_world = record {
  mem = world.mem;
  files = record { handles = set (replicate num_handles 0) 7 1; disk = λ i. 0 };
}

read_back :
    let (r1, w1) = execute_and_set bus (file_system fat) disk false registers pi_world in
    let (r2, w2) =
      execute_and_set bus (file_system fat) disk true (record r1 { es = 0x2000; bx = 0 }) w1 in
    (r2 ≡ record registers { ah = 0; carry = false; es = 0x2000; bx = 0 })
    × (memory.peek w2.mem (0x20000 + 700) ≡ memory.peek world.mem (0x10010 + 700))
unfolding fat_file
read_back =
    write-read_back fat 7 368640 fat_file bus (IsPlain manager) memory disk registers 0x2000 0 700
      pi_world (omega arith, omega arith) (omega arith) refl (omega arith) (omega arith)
      (λ i. omega arith) (omega arith, λ i l u. (omega arith, refl)) world-HoldsBytes
      (omega arith, λ i l u. (omega arith, refl))

-- Where the seek returns the position, the transfer is given up, and success is reported.
given_up :
    (execute_and_set bus by_position disk false registers world).0
    ≡ record registers { al = 0; ah = 0; carry = false }
given_up =
    ap (λ t. t.0)
      (execute_and_set-zero bus by_position 7 368640 position_image disk false registers world tt
        refl (omega arith) (omega arith) (omega arith))

write_operation-other_example :
    (execute_operation bus one_file floppy 7 false 0x10010 3 5 1 1 world).1.files.content
      (lba floppy 3 5 0 * sector_size + 9)
    ≡ 0
write_operation-other_example =
    write_operation-other bus one_file (IsPlain manager) memory 7 368640 image floppy 0x10010 3 5 1
      3 5 0 9 world tt (omega arith, omega arith, omega arith, omega arith)
      (omega arith, omega arith, omega arith, omega arith) (λ e. omega (arith, e.2)) (omega arith)
      (omega arith) (omega arith, λ i l u. (omega arith, refl))
      (λ i l u. world-HoldsBytes i l (omega arith))

lba-room_example : lba (geometry (some 7) 368640) 39 9 1 * sector_size + sector_size ≤ 368640
unfolding geometry
lba-room_example =
    lba-room (some 7) 368640 39 9 1 (omega arith)
      (omega arith, omega arith, omega arith, omega arith)

parameters-place_example :
    let r' = parameters disk registers in
    (r'.carry ≡ false)
    × (u16 (r'.ch + r'.cl / 64 * 256) + 1 ≡ 40)
    × (bit_and r'.cl 0x3F ≡ 9)
    × (r'.dh + 1 ≡ 2)
    × (lba floppy (u16 (r'.ch + r'.cl / 64 * 256)) (bit_and r'.cl 0x3F) r'.dh + 1 ≡ 720)
parameters-place_example =
    parameters-place disk registers 7 refl
      (omega arith, omega arith, omega arith, omega arith, omega arith, omega arith)

io_out-status_example :
    let (disk', r', w1) = io_out bus one_file 0xB1 disk registers world in
    io_out bus one_file 0xB1 disk' (record registers { ah = 1 }) world
    ≡ (disk', record registers { ah = r'.ah; carry = r'.carry }, world)
io_out-status_example =
    io_out-status bus one_file 0xB1 disk registers (record registers { ah = 1 }) world world
      (omega arith) (omega arith) (omega arith) refl refl

config-umount_example :
    (disk' : Disk) × (config one_file (Setting.mount_a 7 368640) empty world.files
      ≡ some (done one_file disk' world.files))
    × (config one_file (Setting.umount 0) disk' world.files
        ≡ some (done one_file empty world.files))
unfolding geometry
config-umount_example =
    config-umount one_file empty 7 368640 world.files (omega arith) refl (omega arith) refl
      (omega arith)
