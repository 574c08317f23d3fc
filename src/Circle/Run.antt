-- ===== src/Circle/Run.antt =====
-- CKernel::Run of tools/circle/kernel/kernel.cpp from its start to its end, with the order of its
-- calls to the core and to Circle, and main.cpp.
use libretro_virtualxt.Base.{ℕ, Bool, Option, none, some, List, [], ◌∷◌, ◌++◌, if◌then◌else◌}
use libretro_virtualxt.Circle.Cores.{ShutdownMode, shutdown_halt, shutdown_reboot}
use libretro_virtualxt.Circle.Kernel.{
  Kernel, Happening, Part, SoundDevice, initialize, initialize_audio, run_loop,
}

-- The calls of `Run`.
pub data Call : Type 0 where
  mount : Call
  open_log : Call
  retro_init : Call
  retro_set_environment : Call
  retro_load_game : Call
  retro_set_input_poll : Call
  open_sound : Call
  start_threads : Call
  stop_threads : Call
  retro_unload_game : Call
  retro_deinit : Call
  delete_sound : Call
  unmount : Call

-- What `Run` meets: the card, the log file of the options, if any, and whether it opens, the
-- options for the sound, whether the threads start, the clock, and the main loop.
pub record World : Type 0 where
  pub raspi : ℕ
  pub mounts : Bool
  pub log_opens : Option Bool
  pub mute : ℕ
  pub sound_name : Option (List ℕ)
  pub threads_start : Bool
  pub clock : ℕ
  pub happenings : List Happening

abbrev if_sound : Option SoundDevice → Call → List Call
if_sound none c = []
if_sound (some d) c = c ∷ []

-- The calls before the main loop.
unfoldable prologue : World → Kernel → List Call
prologue w k =
    mount ∷ (elim w.log_opens [ none ↦ [] | some ok ↦ open_log ∷ [] ])
    ++ (retro_init
        ∷ retro_set_environment
        ∷ retro_load_game
        ∷ retro_set_input_poll
        ∷ (if_sound k.sound open_sound ++ (start_threads ∷ [])))

-- The calls after it.
unfoldable epilogue : Kernel → List Call
epilogue k =
    stop_threads
    ∷ retro_unload_game
    ∷ retro_deinit
    ∷ (if_sound k.sound delete_sound ++ (unmount ∷ []))

-- `Run`: the mode that it returns and the calls, or none while the main loop goes on.
unfoldable run : World → Kernel → Option (ShutdownMode × List Call)
unfolding prologue epilogue initialize_audio run_loop
run w k =
    let k' = initialize_audio w.raspi w.mute w.sound_name k in
    let started = record k' { input_ticks = w.clock; sys_ticks = w.clock } in
    if w.mounts
    then if w.threads_start
      then elim (run_loop w.happenings started).0 [
        | none ↦ none
        | some mode ↦ some (mode, prologue w k' ++ epilogue k')
      ]
      else some (shutdown_halt, prologue w k')
    else some (shutdown_halt, mount ∷ [])

-- How `main` ends.
pub data Exit : Type 0 where
  halted rebooted : Exit

-- `main`, with what the parts' initialisation says.
unfoldable pub main : World → (Part → Bool) → Kernel → Option Exit
unfolding run initialize
main w works k =
    if (initialize w.raspi works).0
    then elim (run w k) [
      | none ↦ none
      | some (mode, calls) ↦ elim mode [ shutdown_reboot ↦ some rebooted | _ ↦ some halted ]
    ]
    else some halted
