-- ===== src/Circle/Lock/Discipline.antt =====
-- How each thread of tools/circle/kernel uses the lock, whatever it meets.
use libretro_virtualxt.Base.{
  ℕ, ◌+◌, ◌/◌, Bool, true, false, not, ◌&&◌, ◌||◌, List, [], ◌∷◌, ◌++◌, ◌==◌, ◌≡◌, refl, ◌∙◌,
  Bool-cases, inl, inr, leb, ltb,
}
use libretro_virtualxt.Circle.Cores.{
  Event, acquire, release, frame_time, retro_run, render, sample, input, sound_write, Turn,
  AudioTurn, emu_thread, emu_loop, render_thread, render_loop, audio_thread, audio_loop, audio_turn,
  write_audio, audio_buffer_size, goes_on, sub64, clock_hz, sample_rate, samples_needed,
}
use libretro_virtualxt.Circle.Kernel
use libretro_virtualxt.Circle.Kernel.{
  Kernel, Happening, run_loop, kernel_turn, poll_input, plug_and_play, handler,
}
use libretro_virtualxt.Circle.Lock.{Schedule, run_core}

-- The events that touch what the lock protects: the core, and the state that it shares.
abbrev pub protected : Event → Bool
protected acquire = false
protected release = false
protected (sound_write n) = false
protected _ = true

-- A thread that holds the lock or not takes it only without it, releases it only with it, and
-- touches what it protects only with it.
abbrev pub disciplined : Bool → List Event → Bool
disciplined h [] = true
disciplined h (acquire ∷ es) = not h && disciplined true es
disciplined h (release ∷ es) = h && disciplined false es
disciplined h (sound_write n ∷ es) = disciplined h es
disciplined h (frame_time dt ∷ es) = h && disciplined h es
disciplined h (retro_run ∷ es) = h && disciplined h es
disciplined h (render ∷ es) = h && disciplined h es
disciplined h (sample ∷ es) = h && disciplined h es
disciplined h (input ∷ es) = h && disciplined h es

emu_loop-disciplined :
    (ticks : ℕ) (turns : List Turn) → disciplined false (emu_loop ticks turns) ≡ true
unfolding emu_loop
emu_loop-disciplined ticks [] = refl
emu_loop-disciplined ticks (t ∷ turns) = elim (Bool-cases (goes_on t.mode)) [
  | inr off ↦ rw off refl
  | inl on ↦ rw on (elim (Bool-cases (leb (clock_hz / 60) (sub64 t.now ticks))) [
    | inl due ↦ rw due (emu_loop-disciplined t.now turns)
    | inr early ↦ rw early (emu_loop-disciplined ticks turns)
  ])
]

render_loop-disciplined :
    (render_ticks ticks : ℕ) (turns : List Turn)
    → disciplined false (render_loop render_ticks ticks turns) ≡ true
unfolding render_loop
render_loop-disciplined render_ticks ticks [] = refl
render_loop-disciplined render_ticks ticks (t ∷ turns) = elim (Bool-cases (goes_on t.mode)) [
  | inr off ↦ rw off refl
  | inl on ↦ rw on (elim (Bool-cases (leb (clock_hz / 60) (sub64 ticks render_ticks))) [
    | inl due ↦ rw due (render_loop-disciplined ticks t.now turns)
    | inr early ↦ rw early (render_loop-disciplined render_ticks t.now turns)
  ])
]

-- What is done with the lock free at the start and at the end.
write_audio-disciplined :
    (size : ℕ) (t : AudioTurn) (len : ℕ) (rest : List Event)
    → disciplined false ((write_audio size t len).0 ++ rest) ≡ disciplined false rest
unfolding write_audio
write_audio-disciplined size t len rest =
    elim (Bool-cases (t.active && (len == size || ltb len (samples_needed t)))) [
      | inl writes ↦ rw writes refl
      | inr waits ↦ rw waits refl
    ]

audio_turn-disciplined :
    (size : ℕ) (t : AudioTurn) (len : ℕ) (rest : List Event)
    → disciplined false ((audio_turn size t len).0 ++ rest) ≡ disciplined false rest
unfolding audio_turn
audio_turn-disciplined size t len rest = elim (Bool-cases (ltb len size)) [
  | inl room ↦ rw room (write_audio-disciplined size t (len + 1) rest)
  | inr full ↦ rw full (write_audio-disciplined size t len rest)
]

audio_loop-disciplined :
    (size audio_ticks ticks len : ℕ) (turns : List AudioTurn)
    → disciplined false (audio_loop size audio_ticks ticks len turns) ≡ true
unfolding audio_loop
audio_loop-disciplined size audio_ticks ticks len [] = refl
audio_loop-disciplined size audio_ticks ticks len (t ∷ turns) = elim (Bool-cases (goes_on t.mode)) [
  | inr off ↦ rw off refl
  | inl on ↦ rw on (elim (Bool-cases (leb (clock_hz / sample_rate) (sub64 ticks audio_ticks))) [
    | inl due ↦ rw due (
        audio_turn-disciplined size t len
          (audio_loop size ticks t.now (audio_turn size t len).1 turns)
        ∙ audio_loop-disciplined size ticks t.now (audio_turn size t len).1 turns)
    | inr early ↦ rw early (audio_loop-disciplined size audio_ticks t.now len turns)
  ])
]

audio_thread-disciplined :
    (has_sound : Bool) (latency start : ℕ) (turns : List AudioTurn)
    → disciplined false (audio_thread has_sound latency start turns) ≡ true
unfolding audio_thread
audio_thread-disciplined true latency start turns =
    audio_loop-disciplined (audio_buffer_size latency) start start 0 turns
audio_thread-disciplined false latency start turns = refl

poll_input-disciplined :
    (ticks : ℕ) (k : Kernel) (rest : List Event)
    → disciplined false ((poll_input ticks k).1 ++ rest) ≡ disciplined false rest
unfolding poll_input
poll_input-disciplined ticks k rest =
    elim (Bool-cases (leb (clock_hz / 60) (sub64 ticks k.input_ticks))) [
      | inl due ↦ rw due refl
      | inr early ↦ rw early refl
    ]

run_loop-disciplined :
    (hs : List Happening) (k : Kernel) → disciplined false (run_loop hs k).2 ≡ true
unfolding run_loop kernel_turn
run_loop-disciplined [] k = refl
run_loop-disciplined (Kernel.turn mode ticks plugged keyboard mouse ∷ hs) k =
    let k' = plug_and_play ticks plugged keyboard mouse k in
    let p = poll_input ticks k' in
    elim (Bool-cases (goes_on mode)) [
      | inr off ↦ rw off refl
      | inl on ↦
          rw on (poll_input-disciplined ticks k' (run_loop hs p.0).2 ∙ run_loop-disciplined hs p.0)
    ]
run_loop-disciplined (Kernel.key_status ∷ hs) k = run_loop-disciplined hs k
run_loop-disciplined (Kernel.keyboard_removed ∷ hs) k =
    run_loop-disciplined hs (handler Kernel.keyboard_removed k)
run_loop-disciplined (Kernel.mouse_status ∷ hs) k =
    run_loop-disciplined hs (handler Kernel.mouse_status k)
run_loop-disciplined (Kernel.mouse_removed ∷ hs) k =
    run_loop-disciplined hs (handler Kernel.mouse_removed k)
run_loop-disciplined (Kernel.gamepad_removed d ∷ hs) k =
    run_loop-disciplined hs (handler (Kernel.gamepad_removed d) k)

-- Every core begins without the lock, and keeps to the discipline.
pub run_core-disciplined : (w : Schedule) (core : ℕ) → disciplined false (run_core w core) ≡ true
unfolding run_core emu_thread render_thread audio_thread
run_core-disciplined w core = elim (Bool-cases (core == 0)) [
  | inl zero_th ↦ rw zero_th (run_loop-disciplined w.happenings w.kernel)
  | inr n₀ ↦ rw n₀ (elim (Bool-cases (core == 1)) [
    | inl first ↦ rw first (emu_loop-disciplined w.start w.emu_turns)
    | inr n₁ ↦ rw n₁ (elim (Bool-cases (core == 2)) [
      | inl second ↦ rw second (render_loop-disciplined w.start w.start w.render_turns)
      | inr n₂ ↦ rw n₂ (elim (Bool-cases (core == 3)) [
        | inl third ↦
            rw third (audio_thread-disciplined w.has_sound w.latency w.start w.audio_turns)
        | inr n₃ ↦ rw n₃ refl
      ])
    ])
  ])
]
