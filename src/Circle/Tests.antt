-- ===== src/Circle/Tests.antt =====
-- The frontend for the Raspberry Pi at concrete inputs.
use libretro_virtualxt.Base.{
  ℕ, ◌+◌, ◌*◌, ◌/◌, ◌≤◌, ◌<◌, ◌≡◌, ◌≢◌, ◌⊎◌, inl, refl, arith, true, false, none, some, List, [],
  ◌∷◌, All, ◌==◌, ==_iff, if◌then◌else◌, length,
}
use libretro_virtualxt.Circle.Cores.{
  shutdown_none, shutdown_halt, acquire, release, frame_time, retro_run, sample, sound_write, Turn,
  AudioTurn, emu_thread, emu_loop, audio_thread, audio_turn, write_audio, audio_loop,
  audio_buffer_size, clock_hz,
}
use libretro_virtualxt.Circle.Cores.Time.{emu_thread-time, IsPaced, told, last_read}
use libretro_virtualxt.Circle.Cores.Audio.{audio_thread-bounds, FitsBuffer, written, generated}
use libretro_virtualxt.Circle.Kernel.{create}
use libretro_virtualxt.Circle.Environment.{log_printf, prefix}
use libretro_virtualxt.Circle.Lock.{Schedule, System, run_core, update, Reach, here, next, step}
use libretro_virtualxt.Circle.Lock.Exclusion.{mutual_exclusion}
use libretro_virtualxt.Circle.Screen.{Display, Screen, video_refresh}
use libretro_virtualxt.Circle.Screen.Frames.{IsScreen, video_refresh-dangles}
use libretro_virtualxt.Circle.Screen.Picture.{video_refresh-pixels}
use libretro_virtualxt.Circle.Vfs.{
  FatFs, KeepsObjects, Files, no_files, num_handles, vfs_open, vfs_close, open_loop, open_at,
  open_mode,
}
use libretro_virtualxt.Circle.Vfs.Table.{vfs_open-handles}
use libretro_virtualxt.Circle.Vfs.Owned.{Held, with_handle, start, opened, vfs_open-fresh}

-- A card on which every file opens, if it is opened for something.
abbrev card : FatFs
card = record {
  Fil = ℕ;
  Disk = ℕ;
  blank = 0;
  is_blank = λ f. f == 0;
  fa_read = 1;
  fa_write = 2;
  fa_open_existing = 0;
  f_open = λ d f path mode. if mode == 0 then (false, f, d) else (true, 1, d);
  f_close = λ d f. d;
  f_sync = λ d f. (f, d);
  f_size = λ f. 0;
  f_read = λ d f n. (true, [], f, d);
  f_write = λ d f bytes. (true, length bytes, f, d);
  f_lseek = λ d f n. (true, f, d);
}

card_opened :
    (d f : ℕ) (path : List ℕ) (mode : ℕ)
    → (card.f_open d f path mode).0 ≡ true
    → card.is_blank (card.f_open d f path mode).1 ≡ false
card_opened d f path mode h = ground arith

card-KeepsObjects : KeepsObjects card
card-KeepsObjects = record {
  is_blank_iff = λ f. ==_iff f 0;
  opened = card_opened;
  synced = λ d f h. h;
  after_read = λ d f n h. h;
  after_write = λ d f bytes h. h;
  after_lseek = λ d f n h. h;
}

-- The files after one was opened for reading.
abbrev one_file : Files card
one_file = (vfs_open card [] 1 0 (no_files card 7)).1

first_handle : (vfs_open card [] 1 0 (no_files card 7)).0 ≡ 1
unfolding vfs_open open_loop open_at open_mode
first_handle = refl

first_opened : (vfs_open card [] 1 0 (no_files card 7)).0 ≢ 0
first_opened h = absurd (omega (arith, first_handle))

second_opened : (vfs_open card [] 1 0 one_file).0 ≢ 0
unfolding vfs_open open_loop open_at open_mode
second_opened h = absurd (omega arith)

abbrev first_held : Held
first_held = with_handle (λ i. false) (vfs_open card [] 1 0 (no_files card 7)).0 true

vfs_open-fresh_example :
    ((vfs_open card [] 1 0 one_file).0 < num_handles)
    × (first_held (vfs_open card [] 1 0 one_file).0 ≡ false)
vfs_open-fresh_example =
    vfs_open-fresh card card-KeepsObjects [] 1 0 (opened [] 1 0 (start 7) first_opened)
      second_opened

vfs_open-handles_example :
    (((vfs_open card [] 0 0 one_file).0 ≡ 0)
      × ((vfs_open card [] 0 0 one_file).1.handles ≡ one_file.handles))
    ⊎ (((vfs_open card [] 0 0 one_file).0 ≢ 0)
        × ((vfs_close card
              (vfs_open card [] 0 0 one_file).0
              (vfs_open card [] 0 0 one_file).1).handles
            ≡ one_file.handles))
vfs_open-handles_example = vfs_open-handles card card-KeepsObjects [] 0 0 one_file

-- Two frames, and a turn that is too early for one.
abbrev turns : List Turn
turns =
    record { mode = shutdown_none; now = 20000 }
    ∷ record { mode = shutdown_none; now = 30000 }
    ∷ record { mode = shutdown_none; now = 40000 }
    ∷ record { mode = shutdown_halt; now = 50000 }
    ∷ []

two_frames :
    emu_thread 0 turns
    ≡ acquire
      ∷ frame_time 20000
      ∷ retro_run
      ∷ release
      ∷ acquire
      ∷ frame_time 20000
      ∷ retro_run
      ∷ release
      ∷ []
unfolding emu_thread emu_loop
two_frames = refl

emu_thread-time_example :
    All IsPaced (emu_thread 0 turns)
    × (0 + told (emu_thread 0 turns) ≤ last_read 0 turns)
    × (last_read 0 turns < 0 + told (emu_thread 0 turns) + clock_hz / 60)
emu_thread-time_example = emu_thread-time 0 turns (omega arith)

-- A device that wants samples.
abbrev audio_turns : List AudioTurn
audio_turns =
    record { mode = shutdown_none; active = true; queue_size = 220; queue_avail = 100; now = 100 }
    ∷ record { mode = shutdown_none; active = true; queue_size = 220; queue_avail = 218; now = 200 }
    ∷ []

one_sample : audio_thread true 10 0 audio_turns ≡ acquire ∷ sample ∷ release ∷ sound_write 2 ∷ []
unfolding audio_thread audio_loop audio_turn write_audio
one_sample = refl

audio_thread-bounds_example :
    All (FitsBuffer (audio_buffer_size 10)) (audio_thread true 10 0 audio_turns)
    × (written (audio_thread true 10 0 audio_turns)
        ≤ 2 * generated (audio_thread true 10 0 audio_turns))
audio_thread-bounds_example = audio_thread-bounds true 10 0 audio_turns

-- The line of a level, and the message that is read before its start.
log_info_line :
    log_printf 1 (b'o' ∷ b'k' ∷ []) []
    ≡ some (b'[' ∷ b'I' ∷ b'N' ∷ b'F' ∷ b'O' ∷ b']' ∷ b' ' ∷ b'o' ∷ b'k' ∷ 10 ∷ [])
unfolding log_printf prefix
log_info_line = refl

log_no_line : log_printf 9 [] [] ≡ none
unfolding log_printf prefix
log_no_line = refl

abbrev schedule : Schedule
schedule = record {
  kernel = create 0;
  happenings = [];
  start = 0;
  emu_turns = turns;
  render_turns = turns;
  has_sound = true;
  latency = 10;
  audio_turns = audio_turns;
}

-- Core 1 holds the lock and is about to call the core.
abbrev in_frame : System
in_frame = record {
  holder = some 1;
  todo = update (run_core schedule) 1 (
      frame_time 20000
      ∷ retro_run
      ∷ release
      ∷ acquire
      ∷ frame_time 20000
      ∷ retro_run
      ∷ release
      ∷ []);
}

core_one :
    run_core schedule 1
    ≡ acquire
      ∷ frame_time 20000
      ∷ retro_run
      ∷ release
      ∷ acquire
      ∷ frame_time 20000
      ∷ retro_run
      ∷ release
      ∷ []
unfolding run_core emu_thread emu_loop
core_one = refl

in_frame-Reach : Reach schedule in_frame
in_frame-Reach = next here (
    step 1 acquire
      (frame_time 20000
        ∷ retro_run
        ∷ release
        ∷ acquire
        ∷ frame_time 20000
        ∷ retro_run
        ∷ release
        ∷ [])
      core_one refl refl)

mutual_exclusion_example : ◌≡◌ {A = ℕ} 1 1
mutual_exclusion_example =
    mutual_exclusion 1 1 (frame_time 20000) (frame_time 20000)
      (retro_run ∷ release ∷ acquire ∷ frame_time 20000 ∷ retro_run ∷ release ∷ [])
      (retro_run ∷ release ∷ acquire ∷ frame_time 20000 ∷ retro_run ∷ release ∷ []) in_frame-Reach
      refl refl refl refl

abbrev display : Display
display = record { works = λ p. true; buffer = λ p. p * 4096; pitch = λ p. 64 }

abbrev broken_display : Display
broken_display = record { works = λ p. false; buffer = λ p. p * 4096; pitch = λ p. 64 }

abbrev dark : Screen
dark = record { width = 0; height = 0; frame = none; live = λ q. false; next = 1; mem = λ a. 0 }

-- A picture of 3 by 2.
video_refresh-pixels_example :
    (t : Screen) × (video_refresh 3 display (λ k. k + 1) 3 2 dark ≡ some t)
    × IsScreen t
    × ((p : ℕ) × (t.frame ≡ some p) × (t.mem (p * 4096 + 1 * 64 + 5) ≡ 4 * 3 * 1 + 5 + 1))
video_refresh-pixels_example =
    video_refresh-pixels 3 display (λ k. k + 1) 3 2 dark 1 5 (λ e. absurd (omega arith))
      (omega arith) (λ p. omega arith) (λ q. refl) (inl refl) (omega arith) (omega arith)

video_refresh-dangles_example :
    (t : Screen) × (video_refresh 3 broken_display (λ k. k) 640 350 dark ≡ some t)
    × (video_refresh 3 broken_display (λ k. k) 640 200 t ≡ none)
video_refresh-dangles_example =
    video_refresh-dangles 3 broken_display (λ k. k) (λ k. k) 640 350 640 200 dark (λ q. refl) refl
      refl refl
