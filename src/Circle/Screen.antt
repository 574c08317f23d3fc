-- ===== src/Circle/Screen.antt =====
-- The function video_refresh of tools/circle/kernel/emuloop.cpp, which draws a picture of the core.
-- A framebuffer of the Circle library is an object on the heap: a pointer to it is a number, and
-- deleting or using one that is not live is a fault, here `none`.
pub mod Frames
pub mod Picture
pub mod Rows
use libretro_virtualxt.Base.{
  ℕ, zero, suc, ◌+◌, ◌-◌, ◌*◌, ◌/◌, ◌%◌, Bool, true, false, ◌&&◌, ◌||◌, not, Option, none, some,
  List, ◌==◌, if◌then◌else◌, leb, ltb, u32, u16, bit_and, bit_or, ◌<<<◌, ◌>>>◌,
}

-- What Circle answers for the framebuffer of a pointer: whether `Initialize` works, `GetBuffer`,
-- and `GetPitch`.
pub record Display : Type 0 where
  pub works : ℕ → Bool
  pub buffer : ℕ → ℕ
  pub pitch : ℕ → ℕ

-- `screen_width`, `screen_height` and `s_pFrameBuffer`, with the heap: the live framebuffers, the
-- next new pointer, and the memory that is shown.
pub record Screen : Type 0 where
  pub width : ℕ
  pub height : ℕ
  pub frame : Option ℕ
  pub live : ℕ → Bool
  pub next : ℕ
  pub mem : ℕ → ℕ

infixl 5 ◌>>=◌
abbrev pub ◌>>=◌ {ℓ κ} : {A : Type ℓ} {B : Type κ} → Option A → (A → Option B) → Option B
none >>= f = none
some a >>= f = f a

abbrev pub mark : (ℕ → Bool) → ℕ → Bool → ℕ → Bool
mark live p v q = if q == p then v else live q

-- `delete`, on a pointer that may be null.
abbrev pub delete : Option ℕ → Screen → Option Screen
delete none s = some s
delete (some p) s = if s.live p then some (record s { live = mark s.live p false }) else none

-- `s_pFrameBuffer = new CBcmFrameBuffer(...)`.
abbrev pub new_frame : Screen → Screen
new_frame s = record s { frame = some s.next; live = mark s.live s.next true; next = s.next + 1 }

-- `s_pFrameBuffer->Initialize()`.
abbrev frame_works : Display → Screen → Bool
frame_works d s = elim s.frame [ none ↦ false | some p ↦ d.works p ]

-- The second try, at the virtual resolution: whether there is a frame to draw into.
unfoldable pub fall_back : Display → Screen → Option (Bool × Screen)
fall_back d s = do
  s₁ ← delete s.frame s
  let s₂ = new_frame s₁
  if frame_works d s₂ then some (true, s₂) else (delete s₂.frame s₂ >>= λ s₃. some (false, s₃))

-- The part of `video_refresh` for a new size.
unfoldable pub replace_frame : Display → ℕ → ℕ → Screen → Option (Bool × Screen)
replace_frame d width height s = do
  s₁ ← delete s.frame (record s { width = width; height = height })
  let s₂ = new_frame s₁
  if frame_works d s₂ then some (true, s₂) else fall_back d s₂

-- The test of `video_refresh`.
abbrev pub is_new_size : ℕ → ℕ → Screen → Bool
is_new_size width height s =
    not (width == s.width)
    || not (height == s.height)
    || (elim s.frame [ none ↦ true | some p ↦ false ])

abbrev pub memcpy : ℕ → (ℕ → ℕ) → ℕ → (ℕ → ℕ) → ℕ → ℕ
memcpy to source n mem a = if leb to a && ltb a (to + n) then source (a - to) else mem a

-- `RGB555`.
abbrev rgb555 : ℕ → ℕ → ℕ → ℕ
rgb555 red green blue =
    bit_or (bit_or (bit_and red 0x1f <<< 11) (bit_and green 0x1f <<< 6)) (bit_and blue 0x1f)

abbrev store16 : (ℕ → ℕ) → ℕ → ℕ → ℕ → ℕ
store16 mem a v b = if b == a then v % 256 else if b == a + 1 then v / 256 else mem b

-- A row of model 5, with `left` pixels to go.
unfoldable copy_pixels : ℕ → ℕ → (ℕ → ℕ) → (ℕ → ℕ) → ℕ → ℕ
copy_pixels zero buffer rgba mem = mem
copy_pixels (suc left) buffer rgba mem =
    copy_pixels left (buffer + 2) (λ k. rgba (k + 4))
      (store16 mem buffer (rgb555 (rgba 2 >>> 3) (rgba 1 >>> 3) (rgba 0 >>> 3)))

-- A row.
unfoldable pub copy_row : ℕ → ℕ → ℕ → (ℕ → ℕ) → (ℕ → ℕ) → ℕ → ℕ
unfolding copy_pixels
copy_row raspi width buffer rgba mem =
    if raspi == 5
    then copy_pixels width buffer rgba mem
    else memcpy buffer rgba (u32 (4 * width)) mem

-- The loop over the rows, with `left` to go. `rgba` is what the picture holds from there on.
unfoldable pub copy_rows : ℕ → ℕ → ℕ → ℕ → ℕ → (ℕ → ℕ) → (ℕ → ℕ) → ℕ → ℕ
unfolding copy_row
copy_rows raspi width pitch zero buffer rgba mem = mem
copy_rows raspi width pitch (suc left) buffer rgba mem =
    copy_rows raspi width pitch left (buffer + pitch)
      (λ k. rgba (k + (if raspi == 5 then 4 * width else u32 (4 * width))))
      (copy_row raspi width buffer rgba mem)

-- The drawing, into a framebuffer that must be live.
unfoldable pub draw : ℕ → Display → (ℕ → ℕ) → ℕ → ℕ → Screen → Option Screen
unfolding copy_rows
draw raspi d rgba width height s = elim s.frame [
  | none ↦ none
  | some p ↦
      if s.live p
      then some
          (record s { mem = copy_rows raspi width (d.pitch p) height (d.buffer p) rgba s.mem })
      else none
]

-- `video_refresh`. It does not use the pitch of the picture.
unfoldable pub video_refresh : ℕ → Display → (ℕ → ℕ) → ℕ → ℕ → Screen → Option Screen
video_refresh raspi d rgba width height s =
    if is_new_size width height s
    then (replace_frame d width height s >>= λ (ok, s').
        if ok then draw raspi d rgba width height s' else some s')
    else draw raspi d rgba width height s
