-- ===== src/Circle/Cores/Time.antt =====
-- The time that EmuThread (tools/circle/kernel/emuloop.cpp) hands to the core, against the clock.
use libretro_virtualxt.Base.{
  ℕ, ◌+◌, ◌-◌, ◌/◌, ◌^◌, ◌≤◌, ◌<◌, ◌≡◌, arith, List, [], ◌∷◌, All, Bool-cases, inl, inr,
  if◌then◌else◌, leb,
}
use libretro_virtualxt.Circle.Cores.{
  Event, frame_time, Turn, goes_on, sub64, clock_hz, emu_loop, emu_thread,
}

-- The time that the core is told of, in all.
abbrev pub told : List Event → ℕ
told [] = 0
told (frame_time dt ∷ es) = dt + told es
told (_ ∷ es) = told es

-- No frame comes earlier than a sixtieth of a second after the one before.
abbrev pub IsPaced : Event → Type 0
IsPaced (frame_time dt) = clock_hz / 60 ≤ dt
IsPaced _ = Unit

-- The clock does not run backwards, and does not wrap.
abbrev IsClock : ℕ → List Turn → Type 0
IsClock last [] = last < 2 ^ 64
IsClock last (t ∷ turns) = (last ≤ t.now) × IsClock t.now turns

-- The last time that the thread reads before it ends.
abbrev pub last_read : ℕ → List Turn → ℕ
last_read last [] = last
last_read last (t ∷ turns) = if goes_on t.mode then last_read t.now turns else last

IsClock-lt : (last : ℕ) (turns : List Turn) → IsClock last turns → last < 2 ^ 64
IsClock-lt last [] c = c
IsClock-lt last (t ∷ turns) c = omega (arith, c.0, IsClock-lt t.now turns c.1)

emu_loop-time :
    (ticks last : ℕ) (turns : List Turn)
    → IsClock last turns
    → ticks ≤ last
    → last < ticks + clock_hz / 60
    → (let es = emu_loop ticks turns in
        All IsPaced es
        × (ticks + told es ≤ last_read last turns)
        × (last_read last turns < ticks + told es + clock_hz / 60))
unfolding emu_loop
emu_loop-time ticks last [] c h k = (tt, omega arith, omega arith)
emu_loop-time ticks last (t ∷ turns) c h k =
    let passed : sub64 t.now ticks ≡ t.now - ticks =
      omega (arith, c.0, IsClock-lt t.now turns c.1) in
    elim (Bool-cases (goes_on t.mode)) [
      | inr off ↦ rw off (tt, omega arith, omega arith)
      | inl on ↦
          rw (on, passed)
            (elim (Bool-cases (leb (clock_hz / 60) (t.now - ticks))) [
              | inl due ↦
                  let (paced, low, high) =
                    emu_loop-time t.now t.now turns c.1 (omega arith) (omega arith) in
                  rw due (
                    (tt, (ground arith, (tt, (tt, paced)))),
                    omega (arith, c.0, low),
                    omega (arith, c.0, high),
                  )
              | inr early ↦
                  rw early
                    (emu_loop-time ticks t.now turns c.1 (omega (arith, c.0)) (ground (arith, c.0)))
            ])
    ]

-- If the clock does not run backwards or wrap, no frame is shorter than a sixtieth of a second,
-- the core is never told of more time than has passed, and what it is not yet told of is less
-- than a sixtieth of a second: no time is lost between frames.
pub emu_thread-time :
    (start : ℕ) (turns : List Turn)
    → IsClock start turns
    → (let es = emu_thread start turns in
        All IsPaced es
        × (start + told es ≤ last_read start turns)
        × (last_read start turns < start + told es + clock_hz / 60))
unfolding emu_thread
emu_thread-time start turns c = emu_loop-time start start turns c (omega arith) (omega arith)
