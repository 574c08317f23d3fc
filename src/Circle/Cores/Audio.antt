-- ===== src/Circle/Cores/Audio.antt =====
-- What AudioThread (tools/circle/kernel/emuloop.cpp) keeps in its buffer and writes.
use libretro_virtualxt.Base.{
  ℕ, suc, ◌+◌, ◌*◌, ◌/◌, ◌%◌, ◌&&◌, ◌||◌, ◌≤◌, ◌≡◌, arith, Bool, true, false, List, [], ◌∷◌, ◌++◌,
  All, Bool-cases, inl, inr, if◌then◌else◌, leb, ltb, ◌==◌,
}
use libretro_virtualxt.Circle.Cores.{
  Event, acquire, release, frame_time, retro_run, render, sample, input, sound_write, AudioTurn,
  samples_needed, write_audio, audio_turn, audio_loop, audio_thread, audio_buffer_size, goes_on,
  sub64, clock_hz, sample_rate,
}

-- The samples that an event puts into the buffer, and those that it writes to the device.
abbrev pub generated : List Event → ℕ
generated [] = 0
generated (sample ∷ es) = suc (generated es)
generated (_ ∷ es) = generated es

-- A write is of whole samples, at most as many as the buffer holds.
abbrev pub FitsBuffer : ℕ → Event → Type 0
FitsBuffer size (sound_write n) = (n ≤ size * 2) × (n % 2 ≡ 0)
FitsBuffer size _ = Unit

All-append {ℓ} :
    {A : Type 0} (P : A → Type ℓ) (xs ys : List A) → All P xs → All P ys → All P (xs ++ ys)
All-append P [] ys hx hy = hy
All-append P (x ∷ xs) ys hx hy = (hx.0, All-append P xs ys hx.1 hy)

-- The bytes that the events write to the device.
abbrev pub written : List Event → ℕ
written [] = 0
written (sound_write n ∷ es) = n + written es
written (_ ∷ es) = written es

written-append : (xs ys : List Event) → written (xs ++ ys) ≡ written xs + written ys
written-append [] ys = omega arith
written-append (acquire ∷ xs) ys = written-append xs ys
written-append (release ∷ xs) ys = written-append xs ys
written-append (frame_time n ∷ xs) ys = written-append xs ys
written-append (retro_run ∷ xs) ys = written-append xs ys
written-append (render ∷ xs) ys = written-append xs ys
written-append (sample ∷ xs) ys = written-append xs ys
written-append (input ∷ xs) ys = written-append xs ys
written-append (sound_write n ∷ xs) ys = omega (arith, written-append xs ys)

generated-append : (xs ys : List Event) → generated (xs ++ ys) ≡ generated xs + generated ys
generated-append [] ys = omega arith
generated-append (acquire ∷ xs) ys = generated-append xs ys
generated-append (release ∷ xs) ys = generated-append xs ys
generated-append (frame_time n ∷ xs) ys = generated-append xs ys
generated-append (retro_run ∷ xs) ys = generated-append xs ys
generated-append (render ∷ xs) ys = generated-append xs ys
generated-append (sample ∷ xs) ys = omega (arith, generated-append xs ys)
generated-append (input ∷ xs) ys = generated-append xs ys
generated-append (sound_write n ∷ xs) ys = generated-append xs ys

-- Events that take `len` samples in the buffer to `len'`: the writes fit, and no sample is written
-- that was not generated.
record Accounts (size len : ℕ) (r : List Event × ℕ) : Type 0 where
  fits : All (FitsBuffer size) r.0
  bound : r.1 ≤ size
  balance : written r.0 + 2 * r.1 ≤ 2 * (len + generated r.0)

write_audio-Accounts :
    (size : ℕ) (t : AudioTurn) (len : ℕ) → len ≤ size → Accounts size len (write_audio size t len)
unfolding write_audio
write_audio-Accounts size t len h =
    elim (Bool-cases (t.active && (len == size || ltb len (samples_needed t)))) [
      | inl writes ↦
          rw writes
            (record { fits = (ground arith, tt); bound = omega arith; balance = ground arith })
      | inr waits ↦ rw waits (record { fits = tt; bound = h; balance = omega arith })
    ]

audio_turn-Accounts :
    (size : ℕ) (t : AudioTurn) (len : ℕ) → len ≤ size → Accounts size len (audio_turn size t len)
unfolding audio_turn
audio_turn-Accounts size t len h = elim (Bool-cases (ltb len size)) [
  | inl room ↦
      let a = write_audio-Accounts size t (len + 1) (ground arith) in
      rw room (record {
        fits = (tt, (tt, (tt, a.fits)));
        bound = a.bound;
        balance = omega (arith, a.balance);
      })
  | inr full ↦ rw full (write_audio-Accounts size t len h)
]

due-Accounts :
    (size : ℕ) (due : Bool) (t : AudioTurn) (len : ℕ)
    → len ≤ size
    → Accounts size len (if due then audio_turn size t len else ([], len))
due-Accounts size true t len h = audio_turn-Accounts size t len h
due-Accounts size false t len h = record { fits = tt; bound = h; balance = omega arith }

audio_loop-bounds :
    (size audio_ticks ticks len : ℕ) (turns : List AudioTurn)
    → len ≤ size
    → (let es = audio_loop size audio_ticks ticks len turns in
        All (FitsBuffer size) es × (written es ≤ 2 * (len + generated es)))
unfolding audio_loop
audio_loop-bounds size audio_ticks ticks len [] h = (tt, omega arith)
audio_loop-bounds size audio_ticks ticks len (t ∷ turns) h =
    let due = leb (clock_hz / sample_rate) (sub64 ticks audio_ticks) in
    let r = if due then audio_turn size t len else ([], len) in
    let a = due-Accounts size due t len h in
    let rest = audio_loop size (if due then ticks else audio_ticks) t.now r.1 turns in
    let ih = audio_loop-bounds size (if due then ticks else audio_ticks) t.now r.1 turns a.bound in
    elim (Bool-cases (goes_on t.mode)) [
      | inl on ↦ rw on (
        All-append (FitsBuffer size) r.0 rest a.fits ih.0,
        omega (arith, a.balance, ih.1, written-append r.0 rest, generated-append r.0 rest),
      )
      | inr off ↦ rw off (tt, omega arith)
    ]

-- Whatever the sound device asks for, each write of the audio thread is of whole samples and at
-- most the size of its buffer, and in all it writes no more samples than it generated.
pub audio_thread-bounds :
    (has_sound : Bool) (latency start : ℕ) (turns : List AudioTurn)
    → (let es = audio_thread has_sound latency start turns in
        All (FitsBuffer (audio_buffer_size latency)) es × (written es ≤ 2 * generated es))
unfolding audio_thread
audio_thread-bounds true latency start turns =
    let (fits, balance) =
      audio_loop-bounds (audio_buffer_size latency) start start 0 turns (omega arith) in
    (fits, omega (arith, balance))
audio_thread-bounds false latency start turns = (tt, omega arith)
