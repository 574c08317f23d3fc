-- ===== src/Disk/OnCircle.antt =====
-- The disk controller (src/modules/disk/disk.odin) on the files of the Raspberry Pi
-- (tools/circle/kernel/kernel.cpp): its functions on files fill what the controller relies on, and
-- a seek returns 0.
use libretro_virtualxt.Base.{
  ℕ, ◌+◌, ◌≤◌, ◌<◌, ◌^◌, ◌≡◌, refl, ap, arith, true, false, Option, none, some, List, [], ◌∷◌,
  length, length-set, get_or-set_self, take, if◌then◌else◌, u32, ◌*◌, ◌≢◌, IsByte, bit_and,
}
use libretro_virtualxt.Circle.Vfs.{
  FatFs, Files, handle, put_handle, seek_position_start, vfs_seek, vfs_read, vfs_write, vfs_flush,
  vfs_close,
}
use libretro_virtualxt.Bus.{Bus, IsMemory}
use libretro_virtualxt.Disk.{
  FileSystem, World, Disk, Registers, drive_at, address, execute_and_set, sector_size,
}
use libretro_virtualxt.Disk.Image.{IsImage, bytes_from, with_bytes}
use libretro_virtualxt.Disk.Seek.{disk_offset}
use libretro_virtualxt.Disk.Sectors.{IsRange}
use libretro_virtualxt.Disk.Transfer.{HoldsBytes}
use libretro_virtualxt.Disk.Commands.{write-read}

-- What `vfs_read` returns of bytes, and `vfs_write` of their number.
abbrev bytes_read : Option (List ℕ) → List ℕ
bytes_read none = []
bytes_read (some bytes) = bytes

abbrev number_written : Option ℕ → ℕ
number_written none = 0
number_written (some n) = n

-- The functions that the core gets of the Raspberry Pi, as the disk controller uses them.
abbrev pub file_system : (fs : FatFs) → FileSystem (Files fs)
file_system fs = record {
  seek = λ s fp o.
      (let (ok, s') = vfs_seek fs fp o seek_position_start s in
        ((if ok then some 0 else none), s'));
  read = λ s fp n. (let (bytes, s') = vfs_read fs fp n s in (bytes_read bytes, s'));
  write = λ s fp bs. (let (n, s') = vfs_write fs fp bs (length bs) s in (number_written n, s'));
  flush = λ s fp. vfs_flush fs fp s;
  close = λ s fp. vfs_close fs fp s;
}

-- What FatFs documents of an object that is open on a file of `size` bytes, which are fewer than
-- 4 GB: `f_lseek` sets the position within the file, `f_read` and `f_write` act there and move it
-- on, and `f_sync` changes nothing that is read.
pub record FatFile (fs : FatFs) (size : ℕ) : Type 1 where
  pub small : size < 2 ^ 32
  pub IsOpen : fs.Disk → fs.Fil → Type 0
  pub content : fs.Disk → fs.Fil → ℕ → ℕ
  pub place : fs.Disk → fs.Fil → ℕ
  pub after_lseek :
      (d : fs.Disk) (f : fs.Fil) (o : ℕ)
      → IsOpen d f
      → o ≤ size
      → (let (ok, f', d') = fs.f_lseek d f o in
          (ok ≡ true) × (place d' f' ≡ o) × (content d' f' ≡ content d f) × IsOpen d' f')
  pub after_read :
      (d : fs.Disk) (f : fs.Fil) (n : ℕ)
      → IsOpen d f
      → place d f + n ≤ size
      → (let (ok, bytes, f', d') = fs.f_read d f n in
          (ok ≡ true)
          × (bytes ≡ bytes_from (content d f) (place d f) n)
          × (place d' f' ≡ place d f + n)
          × (content d' f' ≡ content d f)
          × IsOpen d' f')
  pub after_write :
      (d : fs.Disk) (f : fs.Fil) (bytes : List ℕ)
      → IsOpen d f
      → place d f + length bytes ≤ size
      → (let (ok, n, f', d') = fs.f_write d f bytes in
          (ok ≡ true)
          × (n ≡ length bytes)
          × (place d' f' ≡ place d f + length bytes)
          × (content d' f' ≡ with_bytes (content d f) (place d f) bytes)
          × IsOpen d' f')
  pub after_sync :
      (d : fs.Disk) (f : fs.Fil)
      → IsOpen d f
      → (let (f', d') = fs.f_sync d f in (content d' f' ≡ content d f) × IsOpen d' f')

take_all : (bs : List ℕ) → take (length bs) bs ≡ bs
take_all [] = refl
take_all (b ∷ bs) = ap (λ t. b ∷ t) (take_all bs)

module _ (fs : FatFs) (fp size : ℕ) (file : FatFile fs size) where
  -- The handle is one of the table, and holds an object that is open.
  abbrev pub Holds : Files fs → Type 0
  Holds s = (fp < length s.handles) × file.IsOpen s.disk (handle fs s fp)

  -- What a call leaves in the handle.
  handle-put :
      (s : Files fs) (f : fs.Fil) (d : fs.Disk)
      → fp < length s.handles
      → (handle fs (put_handle fs s fp f d) fp ≡ f) × (fp < length (put_handle fs s fp f d).handles)
  handle-put s f d l =
      (get_or-set_self s.handles fp f fs.blank l, omega (arith, l, length-set s.handles fp f))

  pub file_system-IsImage : IsImage (file_system fs) fp size
  unfolding vfs_seek vfs_read vfs_write vfs_flush
  file_system-IsImage = record {
    Valid = Holds;
    bytes = λ s. file.content s.disk (handle fs s fp);
    pos = λ s. file.place s.disk (handle fs s fp);
    answer = λ o. 0;
    seek_pos = λ s o v l.
        (let (ok, p, c, still) = file.after_lseek s.disk (handle fs s fp) o v.1 l in
          let (_, f', d') = fs.f_lseek s.disk (handle fs s fp) o in
          let (e, l') = handle-put s f' d' v.0 in (rw ok refl, rw e p, rw e c, (l', rw e still)));
    read_bytes = λ s n v l.
        (let (ok, r, p, c, still) = file.after_read s.disk (handle fs s fp) n v.1 l in
          let word : u32 n ≡ n = omega (arith, l, file.small) in
          let (_, bytes, f', d') = fs.f_read s.disk (handle fs s fp) n in
          let (e, l') = handle-put s f' d' v.0 in
          rw word (rw ok r, rw e p, rw e c, (l', rw e still)));
    write_bytes = λ s bs v l.
        (let (ok, r, p, c, still) = file.after_write s.disk (handle fs s fp) bs v.1 l in
          let word : u32 (length bs) ≡ length bs = omega (arith, l, file.small) in
          let (_, n, f', d') = fs.f_write s.disk (handle fs s fp) bs in
          let (e, l') = handle-put s f' d' v.0 in
          rw (word, take_all bs) (rw ok r, rw e p, rw e c, (l', rw e still)));
    flush_bytes = λ s v.
        (let (c, still) = file.after_sync s.disk (handle fs s fp) v.1 in
          let (f', d') = fs.f_sync s.disk (handle fs s fp) in
          let (e, l') = handle-put s f' d' v.0 in (rw e c, (l', rw e still)));
  }

  -- On the Raspberry Pi, what function 3 of the disk interrupt writes, function 2 reads back.
  pub write-read_back :
      {D : Type 0} (bus : Bus D) (Inside : ℕ → Type 0) (m : IsMemory bus Inside) (disk : Disk)
      (r : Registers) (es bx i : ℕ) (w : World D (Files fs))
      → Holds w.files
      → i < r.al * sector_size
      → (drive_at disk r.dl).fp ≡ some fp
      → bit_and r.cl 0x3F ≢ 0
      → disk_offset disk r + r.al * sector_size ≤ size
      → ((j : ℕ) → IsByte (file.content w.files.disk (handle fs w.files fp) j))
      → IsRange bus (file_system fs) Inside m (address r.es r.bx) (r.al * sector_size)
      → HoldsBytes bus
          (file_system fs)
          Inside
          m
          fp
          size
          file_system-IsImage
          w.mem
          (address r.es r.bx)
          (r.al * sector_size)
      → IsRange bus (file_system fs) Inside m (address es bx) (r.al * sector_size)
      → (let (r1, w1) = execute_and_set bus (file_system fs) disk false r w in
          let (r2, w2) =
            execute_and_set bus (file_system fs) disk true (record r1 { es = es; bx = bx }) w1 in
          (r2 ≡ record r { ah = 0; carry = false; es = es; bx = bx })
          × (m.peek w2.mem (address es bx + i) ≡ m.peek w.mem (address r.es r.bx + i)))
  unfolding file_system-IsImage
  write-read_back bus Inside m disk r es bx i w held =
      write-read bus (file_system fs) Inside m fp size file_system-IsImage disk r es bx i w held
