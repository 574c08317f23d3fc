-- ===== src/Disk/Image.antt =====
-- What the disk controller (src/modules/disk/disk.odin) relies on of an image file: a seek within
-- the image sets the position and returns some number, a read gives the bytes from there on and a
-- write puts them there, both moving it on, and a flush changes nothing that is read. What a seek
-- returns is left open: libretro.h says that it is the new position, and vfs_seek of the Raspberry
-- Pi (tools/circle/kernel/kernel.cpp) returns 0.
use libretro_virtualxt.Base.{
  ℕ, zero, suc, ◌+◌, ◌-◌, ◌≤◌, ◌≡◌, some, List, [], ◌∷◌, length, ◌&&◌, leb, ltb, if◌then◌else◌,
  get_or,
}
use libretro_virtualxt.Disk.{FileSystem}

-- The `n` bytes of `f` from `a` on.
abbrev pub bytes_from : (ℕ → ℕ) → ℕ → ℕ → List ℕ
bytes_from f a zero = []
bytes_from f a (suc n) = f a ∷ bytes_from f (a + 1) n

-- A file with the bytes of a list in place from `a` on.
abbrev pub with_bytes : (ℕ → ℕ) → ℕ → List ℕ → ℕ → ℕ
with_bytes f a bs i = if leb a i && ltb i (a + length bs) then get_or bs (i - a) 0 else f i

-- The file `fp` is an image of `size` bytes.
pub record IsImage {F : Type 0} (fs : FileSystem F) (fp size : ℕ) : Type 1 where
  -- The states of the files in which it is open.
  pub Valid : F → Type 0
  pub bytes : F → ℕ → ℕ
  pub pos : F → ℕ
  -- What a seek to a position returns.
  pub answer : ℕ → ℕ
  pub seek_pos :
      (f : F) (o : ℕ)
      → Valid f
      → o ≤ size
      → ((fs.seek f fp o).0 ≡ some (answer o))
        × (pos (fs.seek f fp o).1 ≡ o)
        × (bytes (fs.seek f fp o).1 ≡ bytes f)
        × Valid (fs.seek f fp o).1
  pub read_bytes :
      (f : F) (n : ℕ)
      → Valid f
      → pos f + n ≤ size
      → ((fs.read f fp n).0 ≡ bytes_from (bytes f) (pos f) n)
        × (pos (fs.read f fp n).1 ≡ pos f + n)
        × (bytes (fs.read f fp n).1 ≡ bytes f)
        × Valid (fs.read f fp n).1
  pub write_bytes :
      (f : F) (bs : List ℕ)
      → Valid f
      → pos f + length bs ≤ size
      → ((fs.write f fp bs).0 ≡ length bs)
        × (pos (fs.write f fp bs).1 ≡ pos f + length bs)
        × (bytes (fs.write f fp bs).1 ≡ with_bytes (bytes f) (pos f) bs)
        × Valid (fs.write f fp bs).1
  pub flush_bytes : (f : F) → Valid f → (bytes (fs.flush f fp) ≡ bytes f) × Valid (fs.flush f fp)
