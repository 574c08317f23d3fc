-- ===== src/Circle/Cores.antt =====
-- The threads of tools/circle/kernel/emuloop.cpp, each on a core of its own, and what they do in
-- the order in which they do it. A thread is a function of what it meets: the values of
-- `CKernel::Get()->m_ShutdownMode` and of the clock in each turn of its loop.
pub mod Time
pub mod Audio
use libretro_virtualxt.Base.{
  ℕ, zero, suc, ◌+◌, ◌-◌, ◌*◌, ◌/◌, ◌%◌, ◌^◌, Bool, true, false, List, [], ◌∷◌, ◌++◌, ◌==◌, ◌&&◌,
  ◌||◌, sub32, if◌then◌else◌, leb, ltb, u32,
}

-- `TShutdownMode`.
pub data ShutdownMode : Type 0 where
  shutdown_none : ShutdownMode
  shutdown_halt : ShutdownMode
  shutdown_reboot : ShutdownMode

-- `m_ShutdownMode == ShutdownNone`.
abbrev pub goes_on : ShutdownMode → Bool
goes_on shutdown_none = true
goes_on shutdown_halt = false
goes_on shutdown_reboot = false

-- What a core does: it takes and releases `s_SpinLock`, touches what the lock protects, and
-- writes samples to the sound device.
pub data Event : Type 0 where
  acquire : Event
  release : Event
  frame_time : ℕ → Event
  retro_run : Event
  render : Event
  sample : Event
  input : Event
  sound_write : ℕ → Event

-- `CLOCKHZ`, which the code asserts.
abbrev pub clock_hz : ℕ
clock_hz = 1000000

abbrev pub sample_rate : ℕ
sample_rate = 22050

abbrev pub sub64 : ℕ → ℕ → ℕ
sub64 a b = (a + 2 ^ 64 - b) % 2 ^ 64

-- One turn of a loop: the mode that its test reads, and the clock.
pub record Turn : Type 0 where
  pub mode : ShutdownMode
  pub now : ℕ

-- `EmuThread`, with `ticks` at the clock of the last frame.
unfoldable pub emu_loop : ℕ → List Turn → List Event
emu_loop ticks [] = []
emu_loop ticks (t ∷ turns) =
    let due = leb (clock_hz / 60) (sub64 t.now ticks) in
    let rest = emu_loop (if due then t.now else ticks) turns in
    if goes_on t.mode
    then if due then acquire ∷ frame_time (sub64 t.now ticks) ∷ retro_run ∷ release ∷ rest else rest
    else []

unfoldable pub emu_thread : ℕ → List Turn → List Event
emu_thread start turns = emu_loop start turns

-- `RenderThread`, with `render_ticks` and `ticks`. The clock of a turn is read at its end.
unfoldable pub render_loop : ℕ → ℕ → List Turn → List Event
render_loop render_ticks ticks [] = []
render_loop render_ticks ticks (t ∷ turns) =
    let due = leb (clock_hz / 60) (sub64 ticks render_ticks) in
    let rest = render_loop (if due then ticks else render_ticks) t.now turns in
    if goes_on t.mode then (if due then acquire ∷ render ∷ release ∷ rest else rest) else []

unfoldable pub render_thread : ℕ → List Turn → List Event
unfolding render_loop
render_thread start turns = render_loop start start turns

-- One turn of the loop of `AudioThread`: the mode, what the sound device says, and the clock at
-- the end.
pub record AudioTurn : Type 0 where
  pub mode : ShutdownMode
  pub active : Bool
  pub queue_size : ℕ
  pub queue_avail : ℕ
  pub now : ℕ

-- `samples_needed`, an `unsigned`.
abbrev pub samples_needed : AudioTurn → ℕ
samples_needed t = sub32 t.queue_size t.queue_avail

-- `audio_buffer_size`, for `m_AudioLatency`.
abbrev pub audio_buffer_size : ℕ → ℕ
audio_buffer_size latency = u32 (sample_rate / 1000 * latency)

-- The part that writes to the device, with `len` samples in the buffer: what it writes, in bytes,
-- and the samples that are in the buffer then.
unfoldable pub write_audio : ℕ → AudioTurn → ℕ → List Event × ℕ
write_audio size t len =
    if t.active && (len == size || ltb len (samples_needed t))
    then (sound_write ((if ltb (samples_needed t) len then samples_needed t else len) * 2) ∷ [], 0)
    else ([], len)

-- The body of the loop when a sample is due.
unfoldable pub audio_turn : ℕ → AudioTurn → ℕ → List Event × ℕ
unfolding write_audio
audio_turn size t len =
    if ltb len size
    then (let (es, len') = write_audio size t (len + 1) in (acquire ∷ sample ∷ release ∷ es, len'))
    else write_audio size t len

-- The loop of `AudioThread`, with `audio_ticks`, `ticks` and `audio_buffer_len`.
unfoldable pub audio_loop : ℕ → ℕ → ℕ → ℕ → List AudioTurn → List Event
unfolding audio_turn
audio_loop size audio_ticks ticks len [] = []
audio_loop size audio_ticks ticks len (t ∷ turns) =
    let due = leb (clock_hz / sample_rate) (sub64 ticks audio_ticks) in
    let (es, len') = if due then audio_turn size t len else ([], len) in
    let rest = audio_loop size (if due then ticks else audio_ticks) t.now len' turns in
    if goes_on t.mode then es ++ rest else []

-- `AudioThread`, which returns at once if there is no sound device.
unfoldable pub audio_thread : Bool → ℕ → ℕ → List AudioTurn → List Event
unfolding audio_loop
audio_thread has_sound latency start turns =
    if has_sound then audio_loop (audio_buffer_size latency) start start 0 turns else []
