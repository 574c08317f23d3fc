-- ===== src/Disk/Sectors.antt =====
-- A sector in memory and in its image file (src/modules/disk/disk.odin).
use libretro_virtualxt.Base.{
  ℕ, zero, suc, ◌+◌, ◌-◌, ◌^◌, ◌≤◌, ◌<◌, ◌≡◌, refl, sym, ap, ◌∙◌, arith, true, false, ◌&&◌,
  Bool-cases, inl, inr, List, [], ◌∷◌, length, All, IsByte, ◌==◌, ==_iff, if◌then◌else◌, leb, ltb,
  get_or, u8, u32,
}
use libretro_virtualxt.Bus.{Bus, IsMemory}
use libretro_virtualxt.Disk.{store_bytes, load_bytes, FileSystem}
use libretro_virtualxt.Disk.Image.{bytes_from, with_bytes}

pub length-bytes_from : (f : ℕ → ℕ) (a n : ℕ) → length (bytes_from f a n) ≡ n
length-bytes_from f a zero = refl
length-bytes_from f a (suc n) = ap suc (length-bytes_from f (a + 1) n)

pub get_or-bytes_from : (f : ℕ → ℕ) (a n k : ℕ) → k < n → get_or (bytes_from f a n) k 0 ≡ f (a + k)
get_or-bytes_from f a zero k h = absurd (omega arith)
get_or-bytes_from f a (suc n) zero h = ap f (omega arith)
get_or-bytes_from f a (suc n) (suc k) h =
    get_or-bytes_from f (a + 1) n k (omega arith) ∙ ap f (omega arith)

pub bytes_from-IsByte :
    (f : ℕ → ℕ) (a n : ℕ)
    → ((i : ℕ) → a ≤ i → i < a + n → IsByte (f i))
    → All IsByte (bytes_from f a n)
bytes_from-IsByte f a zero h = tt
bytes_from-IsByte f a (suc n) h = (
  h a (omega arith) (omega arith),
  bytes_from-IsByte f (a + 1) n (λ i l u. h i (omega arith) (omega arith)),
)

-- One byte more in place.
with_bytes-cons :
    (g f : ℕ → ℕ) (a x : ℕ) (bs : List ℕ) (b : ℕ)
    → g b ≡ (if a == b then x else f b)
    → with_bytes g (a + 1) bs b ≡ with_bytes f a (x ∷ bs) b
with_bytes-cons g f a x bs b e = elim (Bool-cases (a == b)) [
  | inl same ↦
      let q : b ≡ a = sym ((==_iff a b).0 same) in
      let past : (leb (a + 1) b && ltb b (a + 1 + length bs)) ≡ false = ground arith in
      let inside : (leb a b && ltb b (a + suc (length bs))) ≡ true = ground arith in
      let first : b - a ≡ 0 = omega arith in rw (past, inside, first) (rw same at e)
  | inr other ↦
      let same_test : (leb (a + 1) b && ltb b (a + 1 + length bs))
          ≡ (leb a b && ltb b (a + suc (length bs))) =
        ground arith in
      rw same_test (elim (Bool-cases (leb a b && ltb b (a + suc (length bs)))) [
        | inl inside ↦ let next : b - a ≡ suc (b - (a + 1)) = ground arith in rw (inside, next) refl
        | inr outside ↦ rw outside (rw other at e)
      ])
]

module _ {D F : Type 0} (bus : Bus D) (fs : FileSystem F) (Inside : ℕ → Type 0)
    (m : IsMemory bus Inside) where
  -- The addresses from `a` to `a + n - 1` are memory, and do not wrap.
  abbrev pub IsRange : ℕ → ℕ → Type 0
  IsRange a n = (a + n < 2 ^ 32) × ((i : ℕ) → a ≤ i → i < a + n → Inside i)

  pub load_bytes-peek :
      (d : D) (a n : ℕ)
      → IsRange a n
      → ((i : ℕ) → a ≤ i → i < a + n → IsByte (m.peek d i))
      → load_bytes bus fs d a n ≡ (bytes_from (m.peek d) a n, d)
  unfolding load_bytes
  load_bytes-peek d a zero r b = refl
  load_bytes-peek d a (suc n) r b =
      let here : u32 (a + 1) ≡ a + 1 = omega (arith, r.0) in
      let byte : u8 (m.peek d a) ≡ m.peek d a = omega (arith, b a (omega arith) (omega arith)) in
      rw
        (
          m.read_peek d a (r.1 a (omega arith) (omega arith)),
          here,
          load_bytes-peek d (a + 1) n
              (omega (arith, r.0), λ i l u. r.1 i (omega arith) (omega arith))
              (λ i l u. b i (omega arith) (omega arith)),
          byte,
        )
        refl

  write-peek :
      (d : D) (a x b : ℕ)
      → Inside a
      → Inside b
      → IsByte x
      → m.peek (bus.write d a x) b ≡ (if a == b then x else m.peek d b)
  write-peek d a x b h k l = elim (Bool-cases (a == b)) [
    | inl same ↦ rw (same, ← (==_iff a b).0 same) (m.write_self d a x h l)
    | inr other ↦ rw other (m.write_other d a b x h k (λ e. ground (arith, e)))
  ]

  pub store_bytes-peek :
      (d : D) (a : ℕ) (bs : List ℕ) (b : ℕ)
      → IsRange a (length bs)
      → All IsByte bs
      → Inside b
      → m.peek (store_bytes bus fs d a bs) b ≡ with_bytes (m.peek d) a bs b
  unfolding store_bytes
  store_bytes-peek d a [] b r h k = ground arith
  store_bytes-peek d a (x ∷ bs) b r h k =
      let here : u32 (a + 1) ≡ a + 1 = omega (arith, r.0) in
      let ih =
        store_bytes-peek (bus.write d a x) (a + 1) bs b
          (omega (arith, r.0), λ i l u. r.1 i (omega arith) (omega arith)) h.1 k in
      rw here (
        ih
        ∙ with_bytes-cons (m.peek (bus.write d a x)) (m.peek d) a x bs b
            (write-peek d a x b (r.1 a (omega arith) (omega arith)) k h.0))
