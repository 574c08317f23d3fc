-- ===== src/Circle/Vfs.antt =====
-- The files of tools/circle/kernel/kernel.cpp: the table `vfs_handles` and the functions that the
-- core gets as its virtual file system. FatFs is a parameter: its file objects, its disk, and what
-- its functions do to them.
pub mod Table
pub mod Owned
use libretro_virtualxt.Base.{
  ℕ, zero, suc, ◌+◌, ◌==◌, Bool, true, false, Option, none, some, List, [], ◌∷◌, ◌↔◌, ◌≡◌, get_or,
  set, take, if◌then◌else◌, truthy, bit_and, bit_or, replicate, u32,
}

-- FatFs. An object of type FIL is changed by every call on it; a call says whether it gave
-- `FR_OK`.
pub record FatFs : Type 1 where
  pub Fil : Type 0
  pub Disk : Type 0
  -- `{0}`, and the comparison of all bytes with it.
  pub blank : Fil
  pub is_blank : Fil → Bool
  pub fa_read : ℕ
  pub fa_write : ℕ
  pub fa_open_existing : ℕ
  pub f_open : Disk → Fil → List ℕ → ℕ → Bool × Fil × Disk
  pub f_close : Disk → Fil → Disk
  pub f_sync : Disk → Fil → Fil × Disk
  pub f_size : Fil → ℕ
  -- The bytes that were read; those that were not are not touched.
  pub f_read : Disk → Fil → ℕ → Bool × List ℕ × Fil × Disk
  pub f_write : Disk → Fil → List ℕ → Bool × ℕ × Fil × Disk
  pub f_lseek : Disk → Fil → ℕ → Bool × Fil × Disk

-- What FatFs documents of its objects: an object is valid, and so not blank, from a successful
-- `f_open` on, and the functions on it keep it so.
pub record KeepsObjects (fs : FatFs) : Type 0 where
  pub is_blank_iff : (f : fs.Fil) → (fs.is_blank f ≡ true) ↔ (f ≡ fs.blank)
  pub opened :
      (d : fs.Disk) (f : fs.Fil) (path : List ℕ) (mode : ℕ)
      → (fs.f_open d f path mode).0 ≡ true
      → fs.is_blank (fs.f_open d f path mode).1 ≡ false
  pub synced :
      (d : fs.Disk) (f : fs.Fil) → fs.is_blank f ≡ false → fs.is_blank (fs.f_sync d f).0 ≡ false
  pub after_read :
      (d : fs.Disk) (f : fs.Fil) (n : ℕ)
      → fs.is_blank f ≡ false
      → fs.is_blank (fs.f_read d f n).2 ≡ false
  pub after_write :
      (d : fs.Disk) (f : fs.Fil) (bytes : List ℕ)
      → fs.is_blank f ≡ false
      → fs.is_blank (fs.f_write d f bytes).2 ≡ false
  pub after_lseek :
      (d : fs.Disk) (f : fs.Fil) (n : ℕ)
      → fs.is_blank f ≡ false
      → fs.is_blank (fs.f_lseek d f n).1 ≡ false

-- `RETRO_VFS_FILE_ACCESS_READ`, `_WRITE`, `_UPDATE_EXISTING` and `RETRO_VFS_SEEK_POSITION_START`.
abbrev access_read : ℕ
access_read = 1

abbrev access_write : ℕ
access_write = 2

abbrev update_existing : ℕ
update_existing = 4

abbrev pub seek_position_start : ℕ
seek_position_start = 0

abbrev pub num_handles : ℕ
num_handles = 0x100

module _ (fs : FatFs) where
  open fs use {
    Fil, Disk, blank, is_blank, f_open, f_close, f_sync, f_size, f_read, f_write, f_lseek,
  }

  -- `vfs_handles`, and the disk behind it.
  pub record Files : Type 0 where
    pub handles : List Fil
    pub disk : Disk

  -- `vfs_handles[stream]`.
  abbrev pub handle : Files → ℕ → Fil
  handle s stream = get_or s.handles stream blank

  abbrev pub put_handle : Files → ℕ → Fil → Disk → Files
  put_handle s stream f d = record { handles = set s.handles stream f; disk = d }

  -- The files before any is opened.
  abbrev pub no_files : Disk → Files
  no_files d = record { handles = replicate num_handles blank; disk = d }

  -- The mode for `f_open`.
  unfoldable pub open_mode : ℕ → ℕ
  open_mode mode =
      let m₁ = if truthy (bit_and mode access_read) then bit_or 0 fs.fa_read else 0 in
      let m₂ = if truthy (bit_and mode access_write) then bit_or m₁ fs.fa_write else m₁ in
      if truthy (bit_and mode update_existing) then bit_or m₂ fs.fa_open_existing else m₂

  -- What `vfs_open` does with the answer of `f_open` for the handle `i`.
  abbrev pub answered : ℕ → Files → Bool × Fil × Disk → ℕ × Files
  answered i s (true, f, d) = (i, put_handle s i f d)
  answered i s (false, f, d) = (0, put_handle s i blank d)

  -- The body of the test in the loop of `vfs_open`, at the free handle `i`.
  unfoldable pub open_at : ℕ → List ℕ → ℕ → Files → ℕ × Files
  open_at i path mode s = answered i s (f_open s.disk (handle s i) path (open_mode mode))

  -- The loop of `vfs_open`, with `left` handles from `i` on.
  unfoldable pub open_loop : ℕ → ℕ → List ℕ → ℕ → Files → ℕ × Files
  open_loop zero i path mode s = (0, s)
  open_loop (suc left) i path mode s =
      let rest = open_loop left (i + 1) path mode s in
      if is_blank (handle s i) then open_at i path mode s else rest

  -- `vfs_open`: the handle, or 0 for NULL.
  unfoldable pub vfs_open : List ℕ → ℕ → ℕ → Files → ℕ × Files
  vfs_open path mode hints s = open_loop 0xff 1 path mode s

  -- `vfs_close`.
  unfoldable pub vfs_close : ℕ → Files → Files
  vfs_close stream s = put_handle s stream blank (f_close s.disk (handle s stream))

  -- `vfs_flush`.
  unfoldable pub vfs_flush : ℕ → Files → Files
  vfs_flush stream s = let (f, d) = f_sync s.disk (handle s stream) in put_handle s stream f d

  -- `vfs_size`.
  unfoldable vfs_size : ℕ → Files → ℕ
  vfs_size stream s = f_size (handle s stream)

  -- `vfs_read`: the bytes that were read, whose number it returns, or none for -1. FatFs takes the
  -- length as 32 bits.
  unfoldable pub vfs_read : ℕ → ℕ → Files → Option (List ℕ) × Files
  vfs_read stream len s =
      let (ok, bytes, f, d) = f_read s.disk (handle s stream) (u32 len) in
      ((if ok then some bytes else none), put_handle s stream f d)

  -- `vfs_write` of the bytes at `s`: how many were written, or none for -1.
  unfoldable pub vfs_write : ℕ → List ℕ → ℕ → Files → Option ℕ × Files
  vfs_write stream bytes len s =
      let (ok, num, f, d) = f_write s.disk (handle s stream) (take (u32 len) bytes) in
      ((if ok then some num else none), put_handle s stream f d)

  -- `vfs_seek`: whether it returns 0 and not -1.
  unfoldable pub vfs_seek : ℕ → ℕ → ℕ → Files → Bool × Files
  vfs_seek stream offset seek_position s =
      if seek_position == seek_position_start
      then (let (ok, f, d) = f_lseek s.disk (handle s stream) offset in
          (ok, put_handle s stream f d))
      else (false, s)
