-- ===== src/Disk/Transfer.antt =====
-- The transfer of sectors between memory and an image (execute_operation of
-- src/modules/disk/disk.odin).
use libretro_virtualxt.Base.{
  ℕ, zero, suc, ◌+◌, ◌-◌, ◌*◌, ◌^◌, ◌≤◌, ◌<◌, ◌≡◌, refl, sym, ap, ◌∙◌, arith, Bool, true, false,
  ◌&&◌, Bool-cases, inl, inr, length, IsByte, if◌then◌else◌, leb, ltb, u32,
}
use libretro_virtualxt.Bus.{Bus, IsMemory}
use libretro_virtualxt.Disk.{
  FileSystem, World, sector_size, store_bytes, read_sector, write_sector, transfer,
}
use libretro_virtualxt.Disk.Image.{bytes_from, with_bytes, IsImage}
use libretro_virtualxt.Disk.Sectors.{
  IsRange, length-bytes_from, get_or-bytes_from, bytes_from-IsByte, load_bytes-peek,
  store_bytes-peek,
}

-- What `n` bytes of `p` from `a` on, put from `b` on over `g`, leave at `i`.
abbrev pub placed : (ℕ → ℕ) → ℕ → ℕ → ℕ → (ℕ → ℕ) → ℕ → ℕ
placed p a b n g i = if leb b i && ltb i (b + n) then p (a + (i - b)) else g i

with_bytes-placed :
    (g p : ℕ → ℕ) (a b n i : ℕ) → with_bytes g b (bytes_from p a n) i ≡ placed p a b n g i
with_bytes-placed g p a b n i =
    rw (length-bytes_from p a n) (elim (Bool-cases (leb b i && ltb i (b + n))) [
      | inl inside ↦ rw inside (get_or-bytes_from p a n (i - b) (ground arith))
      | inr outside ↦ rw outside refl
    ])

-- Two pieces, one behind the other.
placed-placed :
    (p g g' : ℕ → ℕ) (a b n k i : ℕ)
    → g' i ≡ placed p a b n g i
    → placed p (a + n) (b + n) k g' i ≡ placed p a b (n + k) g i
placed-placed p g g' a b n k i e = elim (Bool-cases (leb (b + n) i && ltb i (b + n + k))) [
  | inl second ↦
      let both : (leb b i && ltb i (b + (n + k))) ≡ true = ground arith in
      let same : a + n + (i - (b + n)) ≡ a + (i - b) = ground arith in rw (second, both) (ap p same)
  | inr not_second ↦ rw not_second (
      e ∙ elim (Bool-cases (leb b i && ltb i (b + n))) [
        | inl first ↦
            let both : (leb b i && ltb i (b + (n + k))) ≡ true = ground arith in
            rw (first, both) refl
        | inr not_first ↦
            let neither : (leb b i && ltb i (b + (n + k))) ≡ false = ground arith in
            rw (not_first, neither) refl
      ])
]

module _ {D F : Type 0} (bus : Bus D) (fs : FileSystem F) (Inside : ℕ → Type 0)
    (m : IsMemory bus Inside) (fp size : ℕ) (img : IsImage fs fp size) where
  -- What memory holds in a range are bytes.
  abbrev pub HoldsBytes : D → ℕ → ℕ → Type 0
  HoldsBytes d a n = (i : ℕ) → a ≤ i → i < a + n → IsByte (m.peek d i)

  -- A sector is written: memory stays, and the file has the bytes and has moved on.
  write_sector-image :
      (w : World D F) (a : ℕ)
      → img.Valid w.files
      → IsRange bus fs Inside m a sector_size
      → HoldsBytes w.mem a sector_size
      → img.pos w.files + sector_size ≤ size
      → (f : F) × (write_sector bus fs fp a w ≡ (true, record { mem = w.mem; files = f }))
        × img.Valid f
        × (img.pos f ≡ img.pos w.files + sector_size)
        × ((i : ℕ)
            → img.bytes f i
              ≡ placed (m.peek w.mem) a (img.pos w.files) sector_size (img.bytes w.files) i)
  unfolding write_sector
  write_sector-image w a open_now r h fits =
      let bs = bytes_from (m.peek w.mem) a sector_size in
      let len : length bs ≡ sector_size = length-bytes_from (m.peek w.mem) a sector_size in
      let (n, p, b, still) = img.write_bytes w.files bs open_now (omega (arith, len)) in
      (
        (fs.write w.files fp bs).1,
        rw (write_sector, load_bytes-peek bus fs Inside m w.mem a sector_size r h, n ∙ len) refl,
        still,
        p ∙ ap (λ t. img.pos w.files + t) len,
        λ i.
            ap (λ f. f i) b
            ∙ with_bytes-placed (img.bytes w.files) (m.peek w.mem) a (img.pos w.files) sector_size
                i,
      )

  -- A sector is read: the file stays, but has moved on, and memory has the bytes.
  read_sector-image :
      (w : World D F) (a : ℕ)
      → img.Valid w.files
      → IsRange bus fs Inside m a sector_size
      → ((i : ℕ) → IsByte (img.bytes w.files i))
      → img.pos w.files + sector_size ≤ size
      → (f : F) × (d : D) × (read_sector bus fs fp a w ≡ (true, record { mem = d; files = f }))
        × img.Valid f
        × (img.pos f ≡ img.pos w.files + sector_size)
        × (img.bytes f ≡ img.bytes w.files)
        × ((b : ℕ)
            → Inside b
            → m.peek d b
              ≡ placed (img.bytes w.files) (img.pos w.files) a sector_size (m.peek w.mem) b)
  unfolding read_sector
  read_sector-image w a open_now r h fits =
      let bs = bytes_from (img.bytes w.files) (img.pos w.files) sector_size in
      let len : length bs ≡ sector_size =
        length-bytes_from (img.bytes w.files) (img.pos w.files) sector_size in
      let (g, p, b, still) = img.read_bytes w.files sector_size open_now fits in
      (
        (fs.read w.files fp sector_size).1,
        store_bytes bus fs w.mem a bs,
        rw (read_sector, g, len) refl,
        still,
        p,
        b,
        λ c inside.
            store_bytes-peek bus fs Inside m w.mem a bs c
              (omega (arith, r.0, len), λ i l u. r.1 i l (omega (arith, len)))
              (bytes_from-IsByte (img.bytes w.files) (img.pos w.files) sector_size (λ i l u. h i))
              inside
            ∙ with_bytes-placed (m.peek w.mem) (img.bytes w.files) (img.pos w.files) a sector_size
                c,
      )

  IsRange-rest : (a n k : ℕ) → IsRange bus fs Inside m a (n + k) → IsRange bus fs Inside m (a + n) k
  IsRange-rest a n k r = (omega (arith, r.0), λ i l u. r.1 i (omega arith) (omega arith))

  IsRange-first : (a n k : ℕ) → IsRange bus fs Inside m a (n + k) → IsRange bus fs Inside m a n
  IsRange-first a n k r = (omega (arith, r.0), λ i l u. r.1 i (omega arith) (omega arith))

  HoldsBytes-first : (d : D) (a n k : ℕ) → HoldsBytes d a (n + k) → HoldsBytes d a n
  HoldsBytes-first d a n k h i l u = h i l (omega arith)

  HoldsBytes-rest : (d : D) (a n k : ℕ) → HoldsBytes d a (n + k) → HoldsBytes d (a + n) k
  HoldsBytes-rest d a n k h i l u = h i (omega arith) (omega arith)

  -- A turn of the loop that goes on.
  transfer-true :
      (read : Bool) (addr left num : ℕ) (w w' : World D F) (r : ℕ × World D F)
      → addr + num * sector_size < 2 ^ 32
      → (if read
          then read_sector bus fs fp (addr + num * sector_size) w
          else write_sector bus fs fp (addr + num * sector_size) w)
        ≡ (true, w')
      → transfer bus fs read fp addr left (num + 1) w' ≡ r
      → transfer bus fs read fp addr (suc left) num w ≡ r
  unfolding transfer
  transfer-true read addr left num w w' r h e rest =
      let here : u32 (addr + num * sector_size) ≡ addr + num * sector_size = omega (arith, h) in
      rw (here, e) rest

  -- All sectors are written.
  pub write_all :
      (addr left num : ℕ) (w : World D F)
      → img.Valid w.files
      → IsRange bus fs Inside m (addr + num * sector_size) (left * sector_size)
      → HoldsBytes w.mem (addr + num * sector_size) (left * sector_size)
      → img.pos w.files + left * sector_size ≤ size
      → (f : F) × (transfer bus fs false fp addr left num w
          ≡ (num + left, record { mem = w.mem; files = f }))
        × img.Valid f
        × ((i : ℕ)
            → img.bytes f i
              ≡ placed
                  (m.peek w.mem)
                  (addr + num * sector_size)
                  (img.pos w.files)
                  (left * sector_size)
                  (img.bytes w.files)
                  i)
  unfolding transfer
  write_all addr zero num w open_now r h fits = (
    w.files,
    ap (λ n. (n, w)) (omega arith),
    open_now,
    λ i.
        (let none_in : (leb (img.pos w.files) i && ltb i (img.pos w.files + 0)) ≡ false =
            ground arith in
          rw none_in refl),
  )
  write_all addr (suc left) num w open_now r h fits =
      let a = addr + num * sector_size in
      let split : suc left * sector_size ≡ sector_size + left * sector_size = omega arith in
      let r' : IsRange bus fs Inside m a (sector_size + left * sector_size) = rw split at r in
      let h' : HoldsBytes w.mem a (sector_size + left * sector_size) = rw split at h in
      let (f, e, still, p, b) =
        write_sector-image w a open_now (IsRange-first a sector_size (left * sector_size) r')
          (HoldsBytes-first w.mem a sector_size (left * sector_size) h') (omega (arith, fits)) in
      let next : addr + (num + 1) * sector_size ≡ a + sector_size = omega arith in
      let w' : World D F = record { mem = w.mem; files = f } in
      let (f', e', still', b') =
        write_all addr left (num + 1) w' still
          (rw next (IsRange-rest a sector_size (left * sector_size) r'))
          (rw next (HoldsBytes-rest w.mem a sector_size (left * sector_size) h'))
          (omega (arith, p, fits)) in
      (
        f',
        transfer-true false addr left num w w' _ (omega (arith, r'.0)) e
            (e' ∙ ap (λ n. (n, record { mem = w.mem; files = f' })) (omega arith)),
        still',
        λ i.
            b' i
            ∙ ap (λ n. placed (m.peek w.mem) n (img.pos f) (left * sector_size) (img.bytes f) i)
                next
            ∙ ap
                (λ n.
                  placed (m.peek w.mem) (a + sector_size) n (left * sector_size) (img.bytes f) i)
                p
            ∙ placed-placed (m.peek w.mem) (img.bytes w.files) (img.bytes f) a (img.pos w.files)
                sector_size (left * sector_size) i (b i)
            ∙ ap (λ n. placed (m.peek w.mem) a (img.pos w.files) n (img.bytes w.files) i)
                (sym split),
      )

  -- All sectors are read.
  pub read_all :
      (addr left num : ℕ) (w : World D F)
      → img.Valid w.files
      → IsRange bus fs Inside m (addr + num * sector_size) (left * sector_size)
      → ((i : ℕ) → IsByte (img.bytes w.files i))
      → img.pos w.files + left * sector_size ≤ size
      → (f : F) × (d : D) × (transfer bus fs true fp addr left num w
          ≡ (num + left, record { mem = d; files = f }))
        × img.Valid f
        × (img.bytes f ≡ img.bytes w.files)
        × ((b : ℕ)
            → Inside b
            → m.peek d b
              ≡ placed
                  (img.bytes w.files)
                  (img.pos w.files)
                  (addr + num * sector_size)
                  (left * sector_size)
                  (m.peek w.mem)
                  b)
  unfolding transfer
  read_all addr zero num w open_now r h fits = (
    w.files,
    w.mem,
    ap (λ n. (n, w)) (omega arith),
    open_now,
    refl,
    λ b k.
        (let none_in : (leb (addr + num * sector_size) b && ltb b (addr + num * sector_size + 0))
              ≡ false =
            ground arith in
          rw none_in refl),
  )
  read_all addr (suc left) num w open_now r h fits =
      let a = addr + num * sector_size in
      let split : suc left * sector_size ≡ sector_size + left * sector_size = omega arith in
      let r' : IsRange bus fs Inside m a (sector_size + left * sector_size) = rw split at r in
      let (f, d, e, still, p, same, b) =
        read_sector-image w a open_now (IsRange-first a sector_size (left * sector_size) r') h
          (omega (arith, fits)) in
      let next : addr + (num + 1) * sector_size ≡ a + sector_size = omega arith in
      let w' : World D F = record { mem = d; files = f } in
      let (f', d', e', still', same', b') =
        read_all addr left (num + 1) w' still
          (rw next (IsRange-rest a sector_size (left * sector_size) r')) (λ i. rw same (h i))
          (omega (arith, p, fits)) in
      (
        f',
        d',
        transfer-true true addr left num w w' _ (omega (arith, r'.0)) e
            (e' ∙ ap (λ n. (n, record { mem = d'; files = f' })) (omega arith)),
        still',
        same' ∙ same,
        λ i k.
            b' i k
            ∙ ap
                (λ g.
                  placed g (img.pos f) (addr + (num + 1) * sector_size) (left * sector_size)
                    (m.peek d) i)
                same
            ∙ ap
                (λ n.
                  placed (img.bytes w.files) n (addr + (num + 1) * sector_size) (left * sector_size)
                    (m.peek d) i)
                p
            ∙ ap
                (λ n.
                  placed (img.bytes w.files) (img.pos w.files + sector_size) n (left * sector_size)
                    (m.peek d) i)
                next
            ∙ placed-placed (img.bytes w.files) (m.peek w.mem) (m.peek d) (img.pos w.files) a
                sector_size (left * sector_size) i (b i k)
            ∙ ap (λ n. placed (img.bytes w.files) (img.pos w.files) a n (m.peek w.mem) i)
                (sym split),
      )
