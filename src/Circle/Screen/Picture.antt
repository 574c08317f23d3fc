-- ===== src/Circle/Screen/Picture.antt =====
-- What is on the screen after video_refresh (tools/circle/kernel/emuloop.cpp).
use libretro_virtualxt.Base.{
  ℕ, ◌+◌, ◌*◌, ◌^◌, ◌≤◌, ◌<◌, ◌≡◌, ◌≢◌, ◌⊎◌, ap, ◌∙◌, true, some, ltb, arith,
}
use libretro_virtualxt.Circle.Screen.{Display, Screen, copy_rows, video_refresh}
use libretro_virtualxt.Circle.Screen.Frames.{IsScreen, video_refresh-Shows}
use libretro_virtualxt.Circle.Screen.Rows.{copy_rows-row}

-- Up to model 4, if the only live framebuffer is the one that `s_pFrameBuffer` points to, one of
-- the next two framebuffers works, and a row of the picture fits the pitch of every framebuffer,
-- `video_refresh` does not fault, again leaves one live framebuffer, and puts each byte of the
-- picture, row by row, where that framebuffer shows it.
pub video_refresh-pixels :
    (raspi : ℕ) (d : Display) (rgba : ℕ → ℕ) (width height : ℕ) (s : Screen) (y k : ℕ)
    → raspi ≢ 5
    → width < 2 ^ 30
    → ((p : ℕ) → 4 * width ≤ d.pitch p)
    → IsScreen s
    → (d.works s.next ≡ true) ⊎ (d.works (s.next + 1) ≡ true)
    → y < height
    → k < 4 * width
    → (t : Screen) × (video_refresh raspi d rgba width height s ≡ some t)
      × IsScreen t
      × ((p : ℕ) × (t.frame ≡ some p)
          × (t.mem (d.buffer p + y * d.pitch p + k) ≡ rgba (4 * width * y + k)))
video_refresh-pixels raspi d rgba width height s y k old small wide one ok hy hk =
    let (t, e, one', w, h, (p, to, m)) = video_refresh-Shows raspi d rgba width height s one ok in
    let inside : ltb k (4 * width) ≡ true = ground arith in
    let row : copy_rows raspi width (d.pitch p) height (d.buffer p) rgba s.mem
          (d.buffer p + y * d.pitch p + k)
        ≡ rgba (4 * width * y + k) =
      rw inside at (
        copy_rows-row raspi width (d.pitch p) height (d.buffer p) rgba s.mem y k old small (wide p)
          hy (omega (arith, wide p))) in
    (t, e, one', (p, to, ap (λ f. f (d.buffer p + y * d.pitch p + k)) m ∙ row))
