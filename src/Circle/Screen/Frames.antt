-- ===== src/Circle/Screen/Frames.antt =====
-- The framebuffers of video_refresh (tools/circle/kernel/emuloop.cpp): which are live, and which
-- one is drawn into.
use libretro_virtualxt.Base.{
  ℕ, ◌+◌, ◌≡◌, ◌⊎◌, inl, inr, refl, ap, ◌∙◌, arith, Bool, true, false, Option, none, some, ◌==◌,
  ==_self, Bool-cases, Option-cases,
}
use libretro_virtualxt.Circle.Screen.{
  Display, Screen, delete, mark, new_frame, fall_back, replace_frame, is_new_size, draw, copy_rows,
  video_refresh, ◌>>=◌,
}

abbrev points_to : Option ℕ → ℕ → Bool
points_to none q = false
points_to (some p) q = q == p

-- The only live framebuffer is the one that `s_pFrameBuffer` points to.
abbrev pub IsScreen : Screen → Type 0
IsScreen s = (q : ℕ) → s.live q ≡ points_to s.frame q

-- Deleting it leaves none.
delete-all :
    (frame : Option ℕ) (s : Screen)
    → ((q : ℕ) → s.live q ≡ points_to frame q)
    → (live : ℕ → Bool) × (delete frame s ≡ some (record s { live = live }))
      × ((q : ℕ) → live q ≡ false)
delete-all none s one = (s.live, refl, one)
delete-all (some p) s one = (
  mark s.live p false,
  rw (one p, ==_self p) refl,
  λ q. elim (Bool-cases (q == p)) [
    | inl same ↦ rw same refl
    | inr other ↦ rw other (one q ∙ other)
  ],
)

new_frame-IsScreen : (s : Screen) → ((q : ℕ) → s.live q ≡ false) → IsScreen (new_frame s)
new_frame-IsScreen s dead q = elim (Bool-cases (q == s.next)) [
  | inl same ↦ rw same refl
  | inr other ↦ rw other (dead q)
]

-- There is a frame to draw into, and it is the only one.
IsReady : Display → Screen → ℕ → ℕ → Option (Bool × Screen) → Type 0
IsReady d s width height r =
    (t : Screen) × (r ≡ some (true, t))
    × IsScreen t
    × ((p : ℕ) × (t.frame ≡ some p))
    × (t.width ≡ width)
    × (t.height ≡ height)
    × (t.mem ≡ s.mem)

second :
    (d : Display) (p : ℕ)
    → (d.works p ≡ true) ⊎ (d.works (p + 1) ≡ true)
    → d.works p ≡ false
    → d.works (p + 1) ≡ true
second d p (inl works) broken = cc
second d p (inr works) broken = works

fall_back-IsReady :
    (d : Display) (s : Screen)
    → IsScreen s
    → d.works s.next ≡ true
    → IsReady d s s.width s.height (fall_back d s)
unfolding fall_back IsReady
fall_back-IsReady d s one works =
    let (live, e, dead) = delete-all s.frame s one in
    (
      new_frame (record s { live = live }),
      rw (e, ◌>>=◌, works) refl,
      new_frame-IsScreen (record s { live = live }) dead,
      (s.next, refl),
      refl,
      refl,
      refl,
    )

replace_frame-IsReady :
    (d : Display) (s : Screen) (width height : ℕ)
    → IsScreen s
    → (d.works s.next ≡ true) ⊎ (d.works (s.next + 1) ≡ true)
    → IsReady d s width height (replace_frame d width height s)
unfolding replace_frame IsReady
replace_frame-IsReady d s width height one ok =
    let (live, e, dead) = delete-all s.frame (record s { width = width; height = height }) one in
    let s₁ : Screen = record s { width = width; height = height; live = live } in
    let s₂ = new_frame s₁ in
    elim (Bool-cases (d.works s.next)) [
      | inl works ↦ (
        s₂,
        rw (e, ◌>>=◌, works) refl,
        new_frame-IsScreen s₁ dead,
        (s.next, refl),
        refl,
        refl,
        refl,
      )
      | inr broken ↦
          let (t, e', one', some_frame, w, h, m) =
            fall_back-IsReady d s₂ (new_frame-IsScreen s₁ dead) (second d s.next ok broken) in
          (t, rw (e, ◌>>=◌, broken) e', one', some_frame, w, h, m)
    ]

same_size :
    (width height : ℕ) (s : Screen)
    → is_new_size width height s ≡ false
    → ((p : ℕ) × (s.frame ≡ some p)) × (s.width ≡ width) × (s.height ≡ height)
same_size width height s old = elim (Option-cases s.frame) [
  | inl null ↦ absurd (ground arith)
  | inr (p, e) ↦ ((p, e), ground arith, ground arith)
]

-- The picture is drawn into the one live framebuffer.
abbrev Shows : ℕ → Display → (ℕ → ℕ) → ℕ → ℕ → Screen → Option Screen → Type 0
Shows raspi d rgba width height s r =
    (t : Screen) × (r ≡ some t)
    × IsScreen t
    × (t.width ≡ width)
    × (t.height ≡ height)
    × ((p : ℕ) × (t.frame ≡ some p)
        × (t.mem ≡ copy_rows raspi width (d.pitch p) height (d.buffer p) rgba s.mem))

draw-Shows :
    (raspi : ℕ) (d : Display) (rgba : ℕ → ℕ) (width height : ℕ) (s₀ s : Screen) (p : ℕ)
    → IsScreen s
    → s.frame ≡ some p
    → s.width ≡ width
    → s.height ≡ height
    → s.mem ≡ s₀.mem
    → Shows raspi d rgba width height s₀ (draw raspi d rgba width height s)
unfolding draw
draw-Shows raspi d rgba width height s₀ s p one e w h m =
    let alive : s.live p ≡ true = one p ∙ ap (λ f. points_to f p) e ∙ ==_self p in
    (
      record s { mem = copy_rows raspi width (d.pitch p) height (d.buffer p) rgba s.mem },
      rw (e, alive) refl,
      one,
      w,
      h,
      (p, e, ap (copy_rows raspi width (d.pitch p) height (d.buffer p) rgba) m),
    )

pub video_refresh-Shows :
    (raspi : ℕ) (d : Display) (rgba : ℕ → ℕ) (width height : ℕ) (s : Screen)
    → IsScreen s
    → (d.works s.next ≡ true) ⊎ (d.works (s.next + 1) ≡ true)
    → Shows raspi d rgba width height s (video_refresh raspi d rgba width height s)
unfolding video_refresh IsReady
video_refresh-Shows raspi d rgba width height s one ok =
    elim (Bool-cases (is_new_size width height s)) [
      | inl new ↦
          let (t, e, one', (p, to), w, h, m) = replace_frame-IsReady d s width height one ok in
          rw (new, e) (draw-Shows raspi d rgba width height s t p one' to w h m)
      | inr old ↦
          let ((p, to), w, h) = same_size width height s old in
          rw old (draw-Shows raspi d rgba width height s s p one to w h refl)
    ]

-- A framebuffer that is not live, and is still pointed to.
IsDangling : Screen → Type 0
IsDangling s = (p : ℕ) × (s.frame ≡ some p) × (s.live p ≡ false)

dangling-faults :
    (raspi : ℕ) (d : Display) (rgba : ℕ → ℕ) (width height : ℕ) (s : Screen)
    → IsDangling s
    → video_refresh raspi d rgba width height s ≡ none
unfolding video_refresh replace_frame draw IsDangling
dangling-faults raspi d rgba width height s (p, e, dead) =
    elim (Bool-cases (is_new_size width height s)) [
      | inl new ↦ rw (new, e) (rw (◌>>=◌, dead) refl)
      | inr old ↦ rw (old, e, dead) refl
    ]

-- If the only live framebuffer is the one that `s_pFrameBuffer` points to, the size of the
-- picture is new, and neither of the two new framebuffers works, `video_refresh` leaves a pointer
-- to a deleted one, and the next `video_refresh`, of whatever picture and size, uses or deletes
-- it again.
pub video_refresh-dangles :
    (raspi : ℕ) (d : Display) (rgba rgba' : ℕ → ℕ) (width height width' height' : ℕ) (s : Screen)
    → IsScreen s
    → is_new_size width height s ≡ true
    → d.works s.next ≡ false
    → d.works (s.next + 1) ≡ false
    → (t : Screen) × (video_refresh raspi d rgba width height s ≡ some t)
      × (video_refresh raspi d rgba' width' height' t ≡ none)
unfolding video_refresh replace_frame fall_back IsDangling
video_refresh-dangles raspi d rgba rgba' width height width' height' s one new broken broken' =
    let (live, e, dead) = delete-all s.frame (record s { width = width; height = height }) one in
    let s₁ : Screen = record s { width = width; height = height; live = live } in
    let s₂ = new_frame s₁ in
    let (live₂, e₂, dead₂) = delete-all s₂.frame s₂ (new_frame-IsScreen s₁ dead) in
    let s₃ : Screen = record s₂ { live = live₂ } in
    let s₄ = new_frame s₃ in
    let (live₄, e₄, dead₄) = delete-all s₄.frame s₄ (new_frame-IsScreen s₃ dead₂) in
    let t : Screen = record s₄ { live = live₄ } in
    (
      t,
      rw (new, e) (rw (◌>>=◌, broken, e₂) (rw (◌>>=◌, broken', e₄) refl)),
      dangling-faults raspi d rgba' width' height' t (s.next + 1, refl, dead₄ (s.next + 1)),
    )
