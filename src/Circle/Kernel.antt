-- ===== src/Circle/Kernel.antt =====
-- The class CKernel of tools/circle/kernel/kernel.cpp with kernel.h, and main.cpp: starting and
-- ending, the main loop on core 0, the devices that come and go, and the choice of the sound
-- device. What the Circle library answers is an argument. The temperature control, the keyboard's
-- lights and the log have no effect that the program sees.
pub mod Input
use libretro_virtualxt.Base.{
  ℕ, zero, suc, ◌+◌, ◌*◌, ◌/◌, Bool, true, false, ◌&&◌, Option, none, some, List, [], ◌∷◌, ◌++◌,
  ◌==◌, if◌then◌else◌, leb, get_or, set, replicate,
}
use libretro_virtualxt.Circle.Cores.{
  ShutdownMode, shutdown_none, shutdown_halt, shutdown_reboot, goes_on, Event, acquire, release,
  input, clock_hz, sub64,
}

-- `MAX_GAMEPADS`, `AUDIO_LATENCY_MS` and `HDMI_AUDIO_LATENCY_MS`.
abbrev max_gamepads : ℕ
max_gamepads = 2

abbrev audio_latency_ms : ℕ
audio_latency_ms = 10

abbrev hdmi_audio_latency_ms : ℕ
hdmi_audio_latency_ms = 100

abbrev pub num_keys : ℕ
num_keys = 0x100

-- The sound devices of Circle that the kernel creates.
pub data SoundDevice : Type 0 where
  pwm hdmi usb : SoundDevice

-- The fields of CKernel that change, with the variables of kernel.cpp and of `Run`. A pointer is
-- none for 0.
pub record Kernel : Type 0 where
  pub mouse : Option ℕ
  pub keyboard : Option ℕ
  pub gamepads : List (Option ℕ)
  pub audio_latency : ℕ
  pub sound : Option SoundDevice
  pub mouse_updated : Bool
  pub keyboard_updated : Bool
  pub key_states_current : List Bool
  pub key_states : List Bool
  pub input_ticks : ℕ
  pub sys_ticks : ℕ

-- The constructor: no device is there, and no key is down. The latency is not initialised.
unfoldable pub create : ℕ → Kernel
create latency = record {
  mouse = none;
  keyboard = none;
  gamepads = replicate max_gamepads none;
  audio_latency = latency;
  sound = none;
  mouse_updated = false;
  keyboard_updated = false;
  key_states_current = replicate num_keys false;
  key_states = replicate num_keys false;
  input_ticks = 0;
  sys_ticks = 0;
}

-- The parts of the system in the order in which `Initialize` starts them.
pub data Part : Type 0 where
  interrupts timer usb_controller sd_card network : Part

-- `Initialize`: whether all parts started, and those that it tried. `works` is what a part's own
-- `Initialize` returns; only the models 4 and 5 have a network device.
unfoldable start_parts : (Part → Bool) → List Part → Bool × List Part
start_parts works [] = (true, [])
start_parts works (p ∷ ps) =
    let (ok, tried) = start_parts works ps in if works p then (ok, p ∷ tried) else (false, p ∷ [])

unfoldable pub initialize : ℕ → (Part → Bool) → Bool × List Part
unfolding start_parts
initialize raspi works = start_parts works (
    interrupts
    ∷ timer
    ∷ usb_controller
    ∷ sd_card
    ∷ (if (raspi == 4) then network ∷ [] else if raspi == 5 then network ∷ [] else []))

-- `strcmp` is 0.
abbrev same_text : List ℕ → List ℕ → Bool
same_text [] [] = true
same_text [] (_ ∷ _) = false
same_text (_ ∷ _) [] = false
same_text (x ∷ xs) (y ∷ ys) = (x == y) && same_text xs ys

abbrev sndpwm : List ℕ
sndpwm = b's' ∷ b'n' ∷ b'd' ∷ b'p' ∷ b'w' ∷ b'm' ∷ []

abbrev sndhdmi : List ℕ
sndhdmi = b's' ∷ b'n' ∷ b'd' ∷ b'h' ∷ b'd' ∷ b'm' ∷ b'i' ∷ []

abbrev sndusb : List ℕ
sndusb = b's' ∷ b'n' ∷ b'd' ∷ b'u' ∷ b's' ∷ b'b' ∷ []

-- The device of the name in the options.
unfoldable named_device : ℕ → List ℕ → Option SoundDevice
named_device raspi name =
    if same_text name sndpwm
    then some pwm
    else if same_text name sndhdmi
    then some hdmi
    else if leb 4 raspi && same_text name sndusb
    then some usb
    else none

-- A sound device, with the latency that goes with it.
abbrev with_sound : SoundDevice → Kernel → Kernel
with_sound hdmi k = record k { sound = some hdmi; audio_latency = hdmi_audio_latency_ms }
with_sound pwm k = record k { sound = some pwm; audio_latency = audio_latency_ms }
with_sound usb k = record k { sound = some usb; audio_latency = audio_latency_ms }

-- `InitializeAudio`: PWM is the default up to model 4, and HDMI after it. A device that does not
-- start is only logged.
unfoldable pub initialize_audio : ℕ → ℕ → Option (List ℕ) → Kernel → Kernel
unfolding named_device
initialize_audio raspi mute name k =
    let default = if leb raspi 4 then pwm else hdmi in
    if mute == 0
    then elim name [
      | none ↦ with_sound default k
      | some text ↦ elim (named_device raspi text) [
        | none ↦ with_sound default k
        | some device ↦ with_sound device k
      ]
    ]
    else k

-- What happens while the main loop runs: a turn of it, or a handler that Circle calls between
-- turns. A turn has the mode that its test reads, the clock, what `UpdatePlugAndPlay` says, and
-- the devices that are there then.
pub data Happening : Type 0 where
  turn : ShutdownMode → ℕ → Bool → Option ℕ → Option ℕ → Happening
  key_status : Happening
  keyboard_removed : Happening
  mouse_status : Happening
  mouse_removed : Happening
  gamepad_removed : ℕ → Happening

-- `GamePadRemovedHandler`: the first pad that is the device.
unfoldable remove_gamepad : ℕ → List (Option ℕ) → List (Option ℕ)
remove_gamepad device [] = []
remove_gamepad device (none ∷ pads) = none ∷ remove_gamepad device pads
remove_gamepad device (some pad ∷ pads) =
    let rest = remove_gamepad device pads in if pad == device then none ∷ pads else some pad ∷ rest

-- The part of a turn that looks for new devices, every other second.
unfoldable pub plug_and_play : ℕ → Bool → Option ℕ → Option ℕ → Kernel → Kernel
plug_and_play ticks plugged keyboard_device mouse_device k =
    if leb (clock_hz * 2) (sub64 ticks k.sys_ticks)
    then if plugged
      then record k {
        sys_ticks = ticks;
        keyboard = elim k.keyboard [ none ↦ keyboard_device | some p ↦ some p ];
        mouse = elim k.mouse [ none ↦ mouse_device | some p ↦ some p ];
      }
      else record k { sys_ticks = ticks }
    else k

-- The loop over the keys, with `left` keys from `i` on.
unfoldable pub copy_keys : ℕ → ℕ → List Bool → List Bool → List Bool
copy_keys zero i states current = current
copy_keys (suc left) i states current =
    copy_keys left (i + 1) states (set current i (get_or states i false))

-- The keys, if `keyboard_updated`.
unfoldable pub take_keys : Bool → Kernel → Kernel
take_keys false k = k
take_keys true k = record k {
  key_states_current = copy_keys num_keys 0 k.key_states k.key_states_current;
  keyboard_updated = false;
}

-- The mouse, if there is one.
abbrev pub take_mouse : Option ℕ → Kernel → Kernel
take_mouse none k = k
take_mouse (some p) k = record k { mouse_updated = false }

-- What the turn does under the lock.
unfoldable pub take_input : Kernel → Kernel
take_input k = let k' = take_keys k.keyboard_updated k in take_mouse k'.mouse k'

-- The part of a turn that hands the input over, sixty times a second.
unfoldable pub poll_input : ℕ → Kernel → Kernel × List Event
unfolding take_input
poll_input ticks k =
    if leb (clock_hz / 60) (sub64 ticks k.input_ticks)
    then (take_input (record k { input_ticks = ticks }), acquire ∷ input ∷ release ∷ [])
    else (k, [])

-- A turn of the loop in `Run`.
unfoldable pub kernel_turn : ℕ → Bool → Option ℕ → Option ℕ → Kernel → Kernel × List Event
unfolding plug_and_play poll_input
kernel_turn ticks plugged keyboard_device mouse_device k =
    poll_input ticks (plug_and_play ticks plugged keyboard_device mouse_device k)

-- The handlers. The body of `KeyStatusHandlerRaw` is commented out.
unfoldable pub handler : Happening → Kernel → Kernel
unfolding remove_gamepad
handler (turn mode ticks plugged keyboard_device mouse_device) k = k
handler key_status k = k
handler keyboard_removed k = record k { keyboard = none }
handler mouse_status k = record k { mouse_updated = true }
handler mouse_removed k = record k { mouse = none }
handler (gamepad_removed device) k = record k { gamepads = remove_gamepad device k.gamepads }

-- The loop in `Run`, with what happens until it ends: the mode that ended it, if it has ended, the
-- kernel, and the events of core 0.
unfoldable pub run_loop : List Happening → Kernel → Option ShutdownMode × Kernel × List Event
unfolding kernel_turn handler
run_loop [] k = (none, k, [])
run_loop (turn mode ticks plugged keyboard_device mouse_device ∷ hs) k =
    let (k', es) = kernel_turn ticks plugged keyboard_device mouse_device k in
    let (end, k'', es') = run_loop hs k' in
    if goes_on mode then (end, k'', es ++ es') else (some mode, k, [])
run_loop (h ∷ hs) k = run_loop hs (handler h k)
