-- ===== src/Circle/Screen/Rows.antt =====
-- The rows that video_refresh (tools/circle/kernel/emuloop.cpp) copies.
use libretro_virtualxt.Base.{
  ℕ, zero, suc, ◌+◌, ◌-◌, ◌*◌, ◌^◌, ◌≤◌, ◌<◌, ◌≡◌, ◌≢◌, refl, ◌∙◌, arith, true, false, Bool-cases,
  inl, inr, ◌&&◌, ◌==◌, ==_ne, if◌then◌else◌, leb, ltb, u32,
}
use libretro_virtualxt.Circle.Screen.{memcpy, copy_row, copy_rows}

memcpy-at :
    (to : ℕ) (source : ℕ → ℕ) (n : ℕ) (mem : ℕ → ℕ) (k : ℕ)
    → memcpy to source n mem (to + k) ≡ (if ltb k n then source k else mem (to + k))
memcpy-at to source n mem k =
    let low : leb to (to + k) ≡ true = ground arith in
    let back : to + k - to ≡ k = omega arith in
    elim (Bool-cases (ltb k n)) [
      | inl inside ↦
          let high : ltb (to + k) (to + n) ≡ true = ground arith in
          rw (low, high, inside, back) refl
      | inr outside ↦
          let high : ltb (to + k) (to + n) ≡ false = ground arith in rw (low, high, outside) refl
    ]

memcpy-outside :
    (to : ℕ) (source : ℕ → ℕ) (n : ℕ) (mem : ℕ → ℕ) (a : ℕ)
    → (leb to a && ltb a (to + n)) ≡ false
    → memcpy to source n mem a ≡ mem a
memcpy-outside to source n mem a out = rw out refl

-- Rows below do not touch what lies before them.
copy_rows-before :
    (raspi width pitch left buffer : ℕ) (rgba mem : ℕ → ℕ) (a : ℕ)
    → raspi ≢ 5
    → a < buffer
    → copy_rows raspi width pitch left buffer rgba mem a ≡ mem a
unfolding copy_rows
copy_rows-before raspi width pitch zero buffer rgba mem a old h = refl
copy_rows-before raspi width pitch (suc left) buffer rgba mem a old h =
    copy_rows-before raspi width pitch left (buffer + pitch)
      (λ k. rgba (k + (if raspi == 5 then 4 * width else u32 (4 * width))))
      (copy_row raspi width buffer rgba mem) a old (omega arith)
    ∙ (rw (==_ne raspi 5 old) (ground arith))

pub copy_rows-row :
    (raspi width pitch left buffer : ℕ) (rgba mem : ℕ → ℕ) (y k : ℕ)
    → raspi ≢ 5
    → width < 2 ^ 30
    → 4 * width ≤ pitch
    → y < left
    → k < pitch
    → copy_rows raspi width pitch left buffer rgba mem (buffer + y * pitch + k)
      ≡ (if ltb k (4 * width) then rgba (4 * width * y + k) else mem (buffer + y * pitch + k))
unfolding copy_rows
copy_rows-row raspi width pitch zero buffer rgba mem y k old small fits h l = absurd (omega arith)
copy_rows-row raspi width pitch (suc left) buffer rgba mem zero k old small fits h l =
    let n : u32 (4 * width) ≡ 4 * width = omega arith in
    let start : buffer + 0 * pitch + k ≡ buffer + k = omega arith in
    let first : 4 * width * 0 + k ≡ k = omega arith in
    rw (start, first)
      (copy_rows-before raspi width pitch left (buffer + pitch)
          (λ j. rgba (j + (if raspi == 5 then 4 * width else u32 (4 * width))))
          (copy_row raspi width buffer rgba mem) (buffer + k) old (omega arith)
        ∙ (rw (==_ne raspi 5 old, n) (memcpy-at buffer rgba (4 * width) mem k)))
copy_rows-row raspi width pitch (suc left) buffer rgba mem (suc y) k old small fits h l =
    let n : u32 (4 * width) ≡ 4 * width = omega arith in
    let a : buffer + suc y * pitch + k ≡ buffer + pitch + y * pitch + k = grind arith in
    let b : 4 * width * suc y + k ≡ 4 * width * y + k + 4 * width = grind arith in
    let far : (leb buffer (buffer + pitch + y * pitch + k)
          && ltb (buffer + pitch + y * pitch + k) (buffer + 4 * width))
        ≡ false =
      ground arith in
    rw (a, b)
      (copy_rows-row raspi width pitch left (buffer + pitch)
          (λ j. rgba (j + (if raspi == 5 then 4 * width else u32 (4 * width))))
          (copy_row raspi width buffer rgba mem) y k old small fits (omega arith) l
        ∙ rw (==_ne raspi 5 old, n, far) refl)
