-- ===== src/Circle/Lock.antt =====
-- The four cores of tools/circle/kernel together: CEmuLoop::Run of emuloop.cpp gives a thread to
-- each of the cores 1 to 3, core 0 runs CKernel::Run, and all of them take `s_SpinLock` by
-- CEmuLoop::Lock and release it by CEmuLoop::Unlock. The spin lock is Circle's: a core that
-- acquires it goes on when no core holds it.
pub mod Discipline
pub mod Exclusion
use libretro_virtualxt.Base.{
  ℕ, zero, suc, Bool, true, false, Option, none, some, List, [], ◌∷◌, ◌==◌, ◌≡◌, if◌then◌else◌,
}
use libretro_virtualxt.Circle.Cores.{
  Event, acquire, release, frame_time, retro_run, render, sample, input, sound_write, Turn,
  AudioTurn, emu_thread, render_thread, audio_thread,
}
use libretro_virtualxt.Circle.Kernel.{Kernel, Happening, run_loop}

-- What the threads meet.
pub record Schedule : Type 0 where
  pub kernel : Kernel
  pub happenings : List Happening
  pub start : ℕ
  pub emu_turns : List Turn
  pub render_turns : List Turn
  pub has_sound : Bool
  pub latency : ℕ
  pub audio_turns : List AudioTurn

-- Who holds the lock, and what each core has yet to do.
pub record System : Type 0 where
  pub holder : Option ℕ
  pub todo : ℕ → List Event

-- `CEmuLoop::Run`, and core 0.
unfoldable pub run_core : Schedule → ℕ → List Event
unfolding emu_thread render_thread audio_thread run_loop
run_core w core =
    if core == 0
    then (run_loop w.happenings w.kernel).2
    else if core == 1
    then emu_thread w.start w.emu_turns
    else if core == 2
    then render_thread w.start w.render_turns
    else if core == 3
    then audio_thread w.has_sound w.latency w.start w.audio_turns
    else []

abbrev pub boot : Schedule → System
boot w = record { holder = none; todo = run_core w }

abbrev pub CanGo : Event → Option ℕ → Type 0
CanGo acquire holder = holder ≡ none
CanGo _ holder = Unit

-- The holder of the lock after an event of a core: `Lock` and `Unlock`.
abbrev pub next_holder : ℕ → Event → Option ℕ → Option ℕ
next_holder core acquire holder = some core
next_holder core release holder = none
next_holder core _ holder = holder

abbrev pub update : (ℕ → List Event) → ℕ → List Event → ℕ → List Event
update f i v j = if j == i then v else f j

-- The cores run in any order.
pub data Step (s t : System) : Type 0 where
  step :
      (core : ℕ) (e : Event) (es : List Event)
      → s.todo core ≡ e ∷ es
      → CanGo e s.holder
      → t ≡ record { holder = next_holder core e s.holder; todo = update s.todo core es }
      → Step s t

pub data Reach (w : Schedule) : System → Type 0 where
  here : Reach w (boot w)
  next : {s t : System} → Reach w s → Step s t → Reach w t
